-- ===== src/Esim/Binds.antt =====
-- Steps of the chains of promises of euicc.js, taken apart.
use mt5700_console.Base.{◌≡◌, refl, ap, ◌⊎◌, inl, inr}
use mt5700_console.Esim.{Failure, Client, M, ◌>>=◌}

-- What follows a step, on what the step gave.
unfoldable pub next_of :
    {A B : Type 0} → (A → M B) → Client × (Failure ⊎ A) → Client × (Failure ⊎ B)
next_of f r = elim r.1 [ inl e ↦ (r.0, inl e) | inr a ↦ f a r.0 ]

next_of-inr :
    {A B : Type 0} (f : A → M B) (r : Client × (Failure ⊎ A)) (b : B)
    → (next_of f r).1 ≡ inr b
    → (a : A) × (r.1 ≡ inr a) × ((f a r.0).1 ≡ inr b)
unfolding next_of
next_of-inr f (c, inl e) b h = cc
next_of-inr f (c, inr a) b h = (a, refl, h)

pub >>=-to :
    {A B : Type 0} (m : M A) (f : A → M B) (c c' : Client) (a : A)
    → m c ≡ (c', inr a)
    → (m >>= f) c ≡ f a c'
unfolding next_of
>>=-to m f c c' a e = ap (next_of f) e

-- A chain that gives a value has come through each of its steps.
pub >>=-inr :
    {A B : Type 0} (m : M A) (f : A → M B) (c : Client) (b : B)
    → ((m >>= f) c).1 ≡ inr b
    → (a : A) × ((m c).1 ≡ inr a) × ((f a (m c).0).1 ≡ inr b)
unfolding next_of
>>=-inr m f c b h = next_of-inr f (m c) b h
