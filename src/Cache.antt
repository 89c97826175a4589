-- ===== src/Cache.antt =====
-- The command client of rpc.js: which commands are reads, what an error looks like, the cache of
-- the answers to reads, and the busy state.
pub mod Store
pub mod Sends
pub mod Warm
mod Tests
use mt5700_console.Base.{
  ℕ, zero, suc, ◌+◌, ◌-◌, ◌*◌, ◌/◌, ◌%◌, ◌^◌, ◌≤◌, ◌<◌, min, max, ◌≡◌, refl, sym, ap, ap₂, ◌∙◌, ◌≢◌,
  ◌↔◌, ◌⊎◌, inl, inr, Bool, true, false, not, ◌&&◌, ◌||◌, Option, none, some, List, [], ◌∷◌, ◌++◌,
  map, append-nil, append_assoc, arith, ltb, leb, ◌==◌, if◌then◌else◌, ltb→lt, ==_iff, Bool-cases,
  Option-cases, &&-left, &&-right, some_inj, length, get_elem?, get_or, take, drop, replicate,
  flatten, all, All, length-append, take-length-append, drop-length-append, take-append-drop,
  length-take, length-drop, flatten-append, All-append, All-take, All-drop, Str, codes, str_eq,
  str_eq_iff, starts_with, index_of, hex_digit, hex_value, hex_value-hex_digit, hex2, IsByte,
  IsUnit16, is_text,
}

-- `\s`.
abbrev pub is_space : ℕ → Bool
is_space c =
    (leb 9 c && leb c 13)
    || (c == 32
        || (c == 0xa0
            || (c == 0x1680
                || ((leb 0x2000 c && leb c 0x200a)
                    || (c == 0x2028
                        || (c == 0x2029
                            || (c == 0x202f || (c == 0x205f || (c == 0x3000 || c == 0xfeff)))))))))

-- `toUpperCase` on the letters that commands are written in.
abbrev pub upper : ℕ → ℕ
upper c = if leb 97 c && leb c 122 then c - 32 else c

-- Without its white space, in upper case; `trim` removes nothing more.
unfoldable pub normalize_command : Str → Str
normalize_command [] = []
normalize_command (c ∷ s) =
    let rest = normalize_command s in if is_space c then rest else upper c ∷ rest

unfoldable pub trim_start : Str → Str
trim_start [] = []
trim_start (c ∷ s) = if is_space c then trim_start s else c ∷ s

unfoldable pub trim_end : Str → Str
trim_end [] = []
trim_end (c ∷ s) =
    let rest = trim_end s in if is_space c && not (is_text rest) then [] else c ∷ rest

unfoldable pub trim : Str → Str
unfolding trim_start trim_end
trim s = trim_end (trim_start s)

unfoldable pub last_char : Str → ℕ → ℕ
last_char [] d = d
last_char (c ∷ s) d = last_char s c

-- `indexOf` on an array, as a test.
unfoldable pub includes : List Str → Str → Bool
includes [] k = false
includes (x ∷ xs) k = str_eq x k || includes xs k

unfoldable pub has_prefix_in : List Str → Str → Bool
has_prefix_in [] k = false
has_prefix_in (x ∷ xs) k = starts_with x k || has_prefix_in xs k

abbrev pub non_question_reads : List Str
non_question_reads =
    codes "AT+CSQ"
    ∷ codes "AT^MONSC"
    ∷ codes "AT^MONNC"
    ∷ codes "AT^MONSSC"
    ∷ codes "AT^DSFLOWQRY"
    ∷ codes "AT+CGPADDR"
    ∷ codes "AT+CNUM"
    ∷ codes "AT+CGEQOSRDP"
    ∷ codes "AT+CGMI"
    ∷ codes "AT^MCS"
    ∷ codes "AT^EONS"
    ∷ codes "AT^DSAMBR"
    ∷ []

abbrev pub identifier_commands : List Str
identifier_commands =
    codes "AT+CGSN"
    ∷ codes "AT+CIMI"
    ∷ codes "AT^ICCID?"
    ∷ codes "AT+CGMM"
    ∷ codes "AT+CGMR"
    ∷ codes "AT^PHYNUM?"
    ∷ codes "AT^VERSION?"
    ∷ codes "ATI"
    ∷ []

abbrev pub state_commands : List Str
state_commands =
    codes "AT+CPIN?"
    ∷ codes "AT^SIMSQ?"
    ∷ codes "AT+CFUN?"
    ∷ codes "AT+CLCK?"
    ∷ codes "AT+CGDCONT?"
    ∷ codes "AT+CSCA?"
    ∷ []

unfoldable pub is_retryable_read : Str → Bool
is_retryable_read command =
    let cmd = trim command in
    let k = normalize_command cmd in
    if not (is_text cmd)
    then false
    else if str_eq cmd (codes "AT") || str_eq cmd (codes "ATI")
    then true
    else if last_char cmd 0 == 63
    then true
    else if includes non_question_reads k
    then true
    else if has_prefix_in non_question_reads k
    then true
    else includes identifier_commands k || includes state_commands k

abbrev pub cache_ttl_identifier : ℕ
cache_ttl_identifier = 600000

abbrev pub cache_ttl_state : ℕ
cache_ttl_state = 15000

abbrev pub read_cache_ttl : ℕ
read_cache_ttl = 2500

unfoldable pub cache_ttl_for : Str → ℕ
cache_ttl_for command =
    let k = normalize_command command in
    if includes identifier_commands k
    then cache_ttl_identifier
    else if includes state_commands k
    then cache_ttl_state
    else read_cache_ttl

-- The rest of a line after the word of an error: nothing, a colon with anything behind it, or
-- blanks.
unfoldable pub ends_error : Str → Bool
ends_error [] = true
ends_error (c ∷ s) = c == 58 || ((c == 32 || c == 9) && all (λ x. x == 32 || x == 9) s)

-- The regular expression on one line, behind its blanks.
unfoldable pub error_line : Str → Bool
error_line [] = false
error_line (c ∷ line) =
    let s = c ∷ line in
    if c == 32 || c == 9
    then error_line line
    else (starts_with (codes "ERROR") s && ends_error (drop 5 s))
      || ((starts_with (codes "+CME ERROR") s && ends_error (drop 10 s))
          || (starts_with (codes "+CMS ERROR") s && ends_error (drop 10 s)))

-- The lines of a text, cut at each carriage return and at each line feed.
unfoldable pub lines_of : Str → Str → List Str
lines_of line [] = line ∷ []
lines_of line (c ∷ s) =
    if c == 13 || c == 10 then line ∷ lines_of [] s else lines_of (line ++ (c ∷ [])) s

unfoldable pub is_error_text : Option Str → Bool
is_error_text none = false
is_error_text (some txt) = not (all (λ l. not (error_line l)) (lines_of [] txt))

abbrev pub busy_patterns : List Str
busy_patterns = codes "等待空闲通道超时" ∷ codes "模组正在发送短信" ∷ codes "正在扫频，模组暂时无法响应其它命令" ∷ []

abbrev contains : Str → Str → Bool
contains s t = elim (index_of s t) [ none ↦ false | some i ↦ true ]

unfoldable pub is_busy_error : Str → Bool
is_busy_error s = not (all (λ p. not (contains s p)) busy_patterns)

-- `/^AT\+(CSIM|CGLA|CCHO|CCHC|CCHP)\b/i`.
abbrev pub is_word : ℕ → Bool
is_word c =
    (leb 48 c && leb c 57) || ((leb 65 c && leb c 90) || (c == 95 || (leb 97 c && leb c 122)))

unfoldable pub is_apdu_command : Str → Bool
is_apdu_command command =
    let c = trim command in
    has_prefix_in
      (codes "AT+CSIM" ∷ codes "AT+CGLA" ∷ codes "AT+CCHO" ∷ codes "AT+CCHC" ∷ codes "AT+CCHP" ∷ [])
      (map upper c)
    && not (is_word (get_or c 7 32))

unfoldable pub apdu_wait_ms : ℕ
apdu_wait_ms = 30000

unfoldable pub apdu_budget_ms : ℕ
apdu_budget_ms = 45000
