-- ===== src/Locks/Tests.antt =====
-- A lock of two cells.
use mt5700_console.Base.{◌≤◌, ◌≡◌, refl, none, some, List, [], ◌∷◌, length, codes}
use mt5700_console.Sms.Commands.{decimal, decimal_loop}
use mt5700_console.Cache.{trim}
use mt5700_console.Locks.{
  lte, LockItem, LockLists, check_all, check_number, join_commas, lists_of, number_of,
  to_lock_lists, valid_items,
}
use mt5700_console.Locks.Limits.{IsChecked, to_lock_lists-IsChecked}

abbrev items : List LockItem
items =
    record { band = some 3; arfcn = codes " 1300"; scs = none; pci = codes "12" }
    ∷ record { band = none; arfcn = []; scs = none; pci = [] }
    ∷ record { band = some 41; arfcn = codes "40072"; scs = none; pci = codes "503 " }
    ∷ []

abbrev lists : LockLists
lists = record {
  bands = codes "3,41";
  arfcns = codes "1300,40072";
  scs_types = [];
  pcis = codes "12,503";
}

is_made : to_lock_lists lte 2 items ≡ some lists
unfolding to_lock_lists lists_of valid_items check_all check_number number_of join_commas decimal
    decimal_loop trim
is_made = refl

to_lock_lists-IsChecked_example :
    (1 ≤ length (valid_items items))
    × (length (valid_items items) ≤ 20)
    × IsChecked lte 2 (valid_items items) lists
to_lock_lists-IsChecked_example =
    to_lock_lists-IsChecked lte 2 items lists (λ e. cc) (λ e. cc) is_made
