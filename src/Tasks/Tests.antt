-- ===== src/Tasks/Tests.antt =====
-- The theorems about the task store at concrete histories, with identifiers "b", "bb", "bbb", and so
-- on.
use nuvrion.Common.{
  ℕ, zero, suc, String, ◌≡◌, refl, ap, true, false, none, some, List, [], ◌∷◌, get, put, values,
}
use text.Mathlib.TextLemmas.{nil≢cons, cons≢nil, tail-eq_of_cons-eq}
use nuvrion.Tasks.Types.{is_final, Task, Request, TaskResult, TaskStore, Snapshot, Crypto}
use nuvrion.Tasks.Journal.{open_store, snapshot_of}
use nuvrion.Tasks.Store.{create, claim, complete, claimed, new_task}
use nuvrion.Tasks.Sweep.{recover_expired}
use nuvrion.Tasks.Calls.{Call, creates, claims, completes, cancels, recovers, step, run}
use nuvrion.Tasks.Moves.{is_settled, Follows}
use nuvrion.Tasks.Guarantees.{
  step-Follows, IsValid, run-IsValid, open_store-IsValid, Ended, run-settled,
}
use nuvrion.Tasks.Durability.{reopen-run}
use nuvrion.Tasks.Exclusion.{create-create, SweptTo, recover_expired-SweptTo}

abbrev tally : ℕ → String
tally zero = ""
tally (suc n) = String.◌∷◌ "b" (tally n)

abbrev crypto : Crypto
crypto = record { uuid = λ n. tally (suc n); sha256 = λ s. s }

tally_injective : (m n : ℕ) → tally m ≡ tally n → m ≡ n
tally_injective zero zero e = refl
tally_injective zero (suc n) e = absurd (nil≢cons e)
tally_injective (suc m) zero e = absurd (cons≢nil e)
tally_injective (suc m) (suc n) e = ap suc (tally_injective m n (tail-eq_of_cons-eq e))

unrepeating : (m n : ℕ) → crypto.uuid m ≡ crypto.uuid n → m ≡ n
unrepeating m n e = tally_injective m n (tail-eq_of_cons-eq e)

abbrev power_on : Request
power_on = record {
  operation = "start";
  target_id = "vm-1";
  target_type = "virtual_machine";
  provider_native_id = none;
  connection_id = none;
  requested_by = none;
  correlation_id = "c-1";
  idempotency_key = "k-1";
}

abbrev done : TaskResult
done = record { code = "NUV_OK"; summary = "" }

abbrev empty : TaskStore
empty = open_store false none 0

abbrev first_day : List (ℕ × Call)
first_day = (1, creates power_on) ∷ (2, claims "worker" none) ∷ (3, completes "b" done) ∷ []

abbrev day_end : TaskStore
day_end = run crypto first_day empty

empty-IsValid : IsValid crypto empty
empty-IsValid = open_store-IsValid crypto false 0

day_end-IsValid : IsValid crypto day_end
day_end-IsValid = run-IsValid crypto first_day empty empty-IsValid

abbrev asked : TaskStore
asked = (create crypto power_on 1 empty).1

asked-IsValid : IsValid crypto asked
unfolding run step
asked-IsValid = run-IsValid crypto ((1, creates power_on) ∷ []) empty empty-IsValid

run-IsValid_example : IsValid crypto (run crypto first_day empty)
run-IsValid_example = run-IsValid crypto first_day empty empty-IsValid

step-Follows_example : Follows crypto asked (step crypto (cancels "b" none) 5 asked)
step-Follows_example = step-Follows crypto (cancels "b" none) 5 asked asked-IsValid.keyed

ended : Task
unfolding run create claim complete open_store get put values
ended = elim (get "b" day_end.tasks) [ none ↦ new_task "b" power_on 0 | some t ↦ t ]

run-settled_example :
    Ended "b" ended (run crypto ((9, cancels "b" none) ∷ (10, recovers 10) ∷ []) day_end)
unfolding ended is_settled is_final
run-settled_example =
    run-settled crypto unrepeating ((9, cancels "b" none) ∷ (10, recovers 10) ∷ []) "b" ended
      day_end day_end-IsValid refl refl

blank : Snapshot
blank = record { tasks = []; keys = []; outbox = []; audit = []; attempts = [] }

abbrev filed : TaskStore
filed = open_store true (some blank) 0

reopen-run_example :
    open_store true (run crypto first_day filed).disk (run crypto first_day filed).drawn
    ≡ run crypto first_day filed
unfolding snapshot_of blank open_store
reopen-run_example = reopen-run crypto first_day filed (record { filed = refl; saved = refl }) refl

create-create_example :
    create crypto power_on 7 asked ≡ (((create crypto power_on 1 empty).0.0, false), asked)
create-create_example = create-create crypto power_on power_on 1 7 empty refl

abbrev taken : Task
taken = claimed crypto "w1" 2 asked (new_task "b" power_on 1)

abbrev held : TaskStore
held = (claim crypto "w1" none 2 asked).1

recover_expired-SweptTo_example :
    (u : Task) × (get "b" (recover_expired crypto 60000 60000 held).1.tasks ≡ some u)
    × SweptTo 60000 taken u
unfolding claim claimed create new_task open_store get put values
recover_expired-SweptTo_example = recover_expired-SweptTo crypto 60000 60000 "b" held taken refl
