-- ===== src/RunRecord/Tests.antt =====
-- A record, its journal and a disk, for src/psv/run_record.py.
use psv.Base.{ℕ, suc, ◌+◌, ◌≡◌, refl, ◌↔◌, Bool, true, none, some, [], ◌∷◌, ltb, All, Ensures}
use psv.Base.Int.{ℤ, pos}
use psv.Text.{Text, codes, text_eq, starts_with, lower}
use psv.Value.{Value, Fields, null, bool, int, str, dict, end, field, get}
use psv.RunRecord.{Library, Moment, Run, clean_inputs, build_run_record, verify_run_record}
use psv.RunRecord.Integrity.{build_run_record-verifies}
use psv.RunRecord.Journal.{
  Disk, IsSoundLine, verify_run_journal, exclusive_record_path, IsAllocated,
  exclusive_record_path-IsAllocated,
}
use psv.RunRecord.Audit.{verify_run_journal_iff}

-- Stand-ins for the libraries: no URL has parts, and a digest counts the fields.
abbrev count : Fields → ℕ
count end = 0
count (field k v fs) = suc (count fs)

abbrev shown : Value → Text
shown (str s) = s
shown _ = []

abbrev lib : Library
lib = record {
  urlsplit = λ s. none;
  show = shown;
  decimal = λ n. [];
  digest = λ fs. (b'0' + count fs) ∷ [];
}

abbrev inputs : Fields
inputs =
    field "apiKey" (str (codes "abc")) (field "payer" (str (codes "0x1")) (field "note" null end))

key_is_dropped : get "apiKey" (clean_inputs lib inputs) ≡ none
unfolding clean_inputs get codes lower starts_with
key_is_dropped = refl

abbrev at_instant : ℤ → Moment
at_instant z = record { is_aware = true; iso = codes "2026"; instant = z }

abbrev run : Run
run = record {
  command = codes "reconcile";
  inputs = inputs;
  report = null;
  code = int (pos 0);
  started_at = at_instant (pos 5);
  finished_at = at_instant (pos 9);
  error = none;
  version = codes "1";
  environment = null;
}

build_run_record-verifies_example :
    Ensures
      (λ r.
        (verify_run_record lib r ≡ true)
        × ((get "consistent" r ≡ some (bool true))
            ↔ ((run.error ≡ none) × (get "exitCode" r ≡ some (int (pos 0))))))
      (build_run_record lib run)
build_run_record-verifies_example = build_run_record-verifies lib run

-- The first two names are taken.
abbrev taken : ℕ → Bool
taken n = ltb n 2

third_name : exclusive_record_path taken ≡ some 2
unfolding exclusive_record_path
third_name = refl

exclusive_record_path-IsAllocated_example : IsAllocated taken (exclusive_record_path taken)
exclusive_record_path-IsAllocated_example = exclusive_record_path-IsAllocated taken

-- A disk with one record, whose digest is that of no other field.
abbrev stored : Fields
stored = field "runId" (str (codes "sha256:0")) end

abbrev disk : Disk
disk = record {
  loads = λ s. some (dict (field "file" (str s) stored));
  is_plain_name = λ s. true;
  read = λ s. some (dict stored);
}

clean_journal : verify_run_journal lib disk (some (codes "a" ∷ [])) ≡ some []
unfolding verify_run_journal verify_run_record codes get text_eq
clean_journal = refl

verify_run_journal_iff_example :
    (verify_run_journal lib disk (some (codes "a" ∷ [])) ≡ some [])
    ↔ All (IsSoundLine lib disk) (codes "a" ∷ [])
verify_run_journal_iff_example = verify_run_journal_iff lib disk (codes "a" ∷ [])
