-- ===== src/RunRecord/Journal.antt =====
-- The file names and the journal of src/psv/run_record.py. What the disk holds is a parameter:
-- whether a name is taken, and what a file decodes to.
use psv.Base.{
  ℕ, zero, suc, ◌+◌, ◌≤◌, ◌<◌, ◌≡◌, refl, sym, subst, inl, inr, Bool, true, false, not, Option,
  none, some, List, [], ◌∷◌, arith, ℕ_discrete, if◌then◌else◌, Bool-cases,
}
use psv.Text.{Text}
use psv.Value.{Value, Fields, str, dict, get_or_null}
use psv.RunRecord.{Library, is_claim, verify_run_record}

-- The loop of `_exclusive_record_path`: the first sequence number, from this one on, that is free.
unfoldable pub allocate : (ℕ → Bool) → ℕ → ℕ → Option ℕ
allocate taken zero sequence = none
allocate taken (suc tries) sequence =
    let later = allocate taken tries (sequence + 1) in
    if taken sequence then later else some sequence

-- `_exclusive_record_path`, with `none` for its FileExistsError; the name is a function of the number.
unfoldable pub exclusive_record_path : (ℕ → Bool) → Option ℕ
unfolding allocate
exclusive_record_path taken = allocate taken 10_000 0

-- Every number from one on to another is taken.
abbrev pub AllTaken : (ℕ → Bool) → ℕ → ℕ → Type 0
AllTaken taken low high = (n : ℕ) → low ≤ n → n < high → taken n ≡ true

allocate_sound :
    (taken : ℕ → Bool) (tries low k : ℕ)
    → allocate taken tries low ≡ some k
    → (low ≤ k) × (k < low + tries) × (taken k ≡ false) × AllTaken taken low k
unfolding allocate
allocate_sound taken zero low k h = cc
allocate_sound taken (suc tries) low k h = elim (Bool-cases (taken low)) [
  | inl t ↦
      (let (a, b, c, d) = allocate_sound taken tries (low + 1) k (ground (arith, h, t)) in
        (omega arith, omega arith, c, from_next k t d))
  | inr f ↦
      (let e : low ≡ k = ground (arith, h, f) in
        (omega arith, omega arith, subst (λ n. taken n ≡ false) e f, λ n p q. absurd (omega arith)))
]
  where
    from_next : (k : ℕ) → taken low ≡ true → AllTaken taken (low + 1) k → AllTaken taken low k
    from_next k t d n p q = elim (ℕ_discrete n low) [
      | yes e ↦ subst (λ m. taken m ≡ true) (sym e) t
      | no e ↦ d n (omega arith) q
    ]

allocate_full :
    (taken : ℕ → Bool) (tries low : ℕ)
    → allocate taken tries low ≡ none
    → AllTaken taken low (low + tries)
unfolding allocate
allocate_full taken zero low h n p q = absurd (omega arith)
allocate_full taken (suc tries) low h n p q = elim (Bool-cases (taken low)) [
  | inl t ↦ (elim (ℕ_discrete n low) [
    | yes e ↦ subst (λ m. taken m ≡ true) (sym e) t
    | no e ↦
        allocate_full taken tries (low + 1) (ground (arith, h, t)) n (omega arith) (omega arith)
  ])
  | inr f ↦ absurd (ground (arith, h, f))
]

-- What the allocation of a file name promises: a free name with all names before it taken, or no free
-- name among the first ten thousand.
abbrev pub IsAllocated : (ℕ → Bool) → Option ℕ → Type 0
IsAllocated taken none = AllTaken taken 0 10_000
IsAllocated taken (some k) = (k < 10_000) × (taken k ≡ false) × AllTaken taken 0 k

-- A run record never takes the name of a file that exists: it gets the first of ten thousand names
-- that is free, and it fails only if all of them are taken.
pub exclusive_record_path-IsAllocated :
    (taken : ℕ → Bool) → IsAllocated taken (exclusive_record_path taken)
unfolding exclusive_record_path
exclusive_record_path-IsAllocated taken = by_result (allocate taken 10_000 0) refl
  where
    by_result : (r : Option ℕ) → allocate taken 10_000 0 ≡ r → IsAllocated taken r
    by_result none e = allocate_full taken 10_000 0 e
    by_result (some k) e =
        (let (a, b, c, d) = allocate_sound taken 10_000 0 k e in (omega arith, c, d))

-- The findings on one line of the journal.
pub data Finding : Type 0 where
  invalid_json not_an_object unsafe_filename missing_record bad_checksum id_mismatch : Finding

-- `json.loads` of a line, whether a file name is a plain name, and the decoded content of a file of
-- the directory; `none` is an error.
pub record Disk : Type 0 where
  pub loads : Text → Option Value
  pub is_plain_name : Text → Bool
  pub read : Text → Option Value

-- `entry.get("runId") == record.get("runId")`, where the id of a record that was verified is a text
abbrev pub same_id : Value → Value → Bool
same_id entry_id (str s) = is_claim entry_id s
same_id entry_id _ = false

unfoldable pub record_finding : Library → Fields → Option Value → Option Finding
record_finding lib entry none = some missing_record
record_finding lib entry (some (dict run)) =
    if not (verify_run_record lib run)
    then some bad_checksum
    else if not (same_id (get_or_null "runId" entry) (get_or_null "runId" run))
    then some id_mismatch
    else none
record_finding lib entry (some _) = some bad_checksum

unfoldable pub file_finding : Library → Disk → Fields → Value → Option Finding
unfolding record_finding
file_finding lib disk entry (str name) =
    if not (disk.is_plain_name name)
    then some unsafe_filename
    else record_finding lib entry (disk.read name)
file_finding lib disk entry _ = some unsafe_filename

unfoldable pub entry_finding : Library → Disk → Option Value → Option Finding
unfolding file_finding
entry_finding lib disk none = some invalid_json
entry_finding lib disk (some (dict entry)) = file_finding lib disk entry (get_or_null "file" entry)
entry_finding lib disk (some _) = some not_an_object

-- The findings of a journal that is there, with the numbers of their lines.
unfoldable pub journal_findings : Library → Disk → ℕ → List Text → List (ℕ × Finding)
unfolding entry_finding
journal_findings lib disk n [] = []
journal_findings lib disk n (line ∷ lines) =
    let rest = journal_findings lib disk (n + 1) lines in
    elim (entry_finding lib disk (disk.loads line)) [ none ↦ rest | some f ↦ (n, f) ∷ rest ]

-- `verify_run_journal`; `none` is its single finding on a missing journal.
unfoldable pub verify_run_journal :
    Library → Disk → Option (List Text) → Option (List (ℕ × Finding))
unfolding journal_findings
verify_run_journal lib disk none = none
verify_run_journal lib disk (some lines) = some (journal_findings lib disk 1 lines)

-- A line whose entry names a plain file, which holds a record with a valid checksum and the same id.
abbrev pub IsSoundLine : Library → Disk → Text → Type 0
IsSoundLine lib disk line =
    (entry : Fields) × (name : Text) × (run : Fields) × (disk.loads line ≡ some (dict entry))
    × (get_or_null "file" entry ≡ str name)
    × (disk.is_plain_name name ≡ true)
    × (disk.read name ≡ some (dict run))
    × (verify_run_record lib run ≡ true)
    × (same_id (get_or_null "runId" entry) (get_or_null "runId" run) ≡ true)
