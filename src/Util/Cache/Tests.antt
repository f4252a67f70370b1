-- ===== src/Util/Cache/Tests.antt =====
-- Runs of util/Cache.h with a capacity of two entries.
use oasys.Base.{
  ℕ, ◌-◌, ◌^◌, ◌≤◌, true, false, List, [], ◌∷◌, none, some, ◌≡◌, refl, ◌==◌, ◌⊎◌, arith, Table,
  find, erase, update, is_some, length,
}
use oasys.Util.Cache.{
  Entry, Cache, capacity_helper, get, unpin, unpin_handle, put_and_pin, evict, evict_all,
  cleanup_all, make_room, evict_last, first_unpinned, move_to_back,
}
use oasys.Util.Cache.Accounts.{capacity_accounts, capacity_accounts-Counts}
use oasys.Util.Cache.Room.{Coherent, Put, put_and_pin-Put}
use oasys.Util.Cache.Bound.{put_and_pin-bound}
use oasys.Util.Cache.Calls.{
  Call, get_call, unpin_call, unpin_handle_call, evict_call, put_call, run_call, run_calls,
  run_calls-Coherent,
}

abbrev entry_of : ℕ → ℕ → Entry ℕ
entry_of val pin_count = record { val = val; pin_count = pin_count }

abbrev cache_of : Table (Entry ℕ) → ℕ → Cache (capacity_helper ℕ)
cache_of entries count = record {
  entries = entries;
  helper = record { capacity = 2; count = count };
  reorder_on_access = true;
}

abbrev two : Cache (capacity_helper ℕ)
two = cache_of ((1, entry_of 10 1) ∷ (2, entry_of 20 0) ∷ []) 2

two-Coherent : Coherent (capacity_accounts ℕ 2) two
unfolding find
two-Coherent = record {
  distinct = (refl, (refl, tt));
  held = (capacity_accounts-Counts ℕ 2 two.helper two.entries).1 (refl, refl);
}

-- The entry that is not pinned makes room, although it has been used last.
abbrev three : Cache (capacity_helper ℕ)
three = cache_of ((1, entry_of 10 1) ∷ (3, entry_of 30 1) ∷ []) 2

put_three : put_and_pin 3 30 two ≡ some (true, three)
unfolding put_and_pin make_room evict_last first_unpinned find erase
put_three = refl

put_and_pin-Put_example :
    ((is_some (find 3 two.entries) ≡ true) × (put_and_pin 3 30 two ≡ some (false, two)))
    ⊎ ((c' : Cache (capacity_helper ℕ)) × (put_and_pin 3 30 two ≡ some (true, c'))
        × Put (capacity_accounts ℕ 2) 3 30 two c')
put_and_pin-Put_example = put_and_pin-Put (capacity_accounts ℕ 2) 3 30 two two-Coherent

put_and_pin-bound_example :
    (length three.entries ≤ 2)
    ⊎ ((i : ℕ) (e : Entry ℕ) → find i three.entries ≡ some e → (e.pin_count == 0) ≡ false)
put_and_pin-bound_example = put_and_pin-bound 2 3 30 two three two-Coherent (omega arith) put_three

abbrev some_calls : List (Call ℕ)
some_calls =
    get_call 2 true
    ∷ unpin_call 1
    ∷ put_call 4 40
    ∷ unpin_handle_call 4
    ∷ unpin_handle_call 4
    ∷ evict_call 9
    ∷ []

-- A handle that is unpinned once more than it was pinned leaves a count that is never 0 again.
abbrev after_calls : Cache (capacity_helper ℕ)
after_calls = cache_of ((2, entry_of 20 1) ∷ (4, entry_of 40 (2 ^ 32 - 1)) ∷ []) 2

some_calls_run : run_calls some_calls two ≡ some after_calls
unfolding run_calls run_call get unpin unpin_handle put_and_pin make_room evict_last first_unpinned
    evict move_to_back find erase update
some_calls_run = refl

run_calls-Coherent_example : Coherent (capacity_accounts ℕ 2) after_calls
run_calls-Coherent_example =
    run_calls-Coherent (capacity_accounts ℕ 2) some_calls two after_calls some_calls_run
      two-Coherent

-- Such an entry stays when all others have gone to make room.
never_evicted : evict_last (cache_of ((4, entry_of 40 (2 ^ 32 - 1)) ∷ []) 1) ≡ none
unfolding evict_last first_unpinned
never_evicted = refl

all_evicted : (evict_all two).helper.count ≡ 0
unfolding evict_all cleanup_all
all_evicted = refl
