-- ===== src/RunRecord/Integrity.antt =====
-- A record of src/psv/run_record.py passes its own check.
use psv.Base.{
  ℕ, String, ◌≡◌, refl, sym, ◌∙◌, ◌↔◌, inl, inr, true, false, ◌&&◌, Option, none, some, ◌++◌, arith,
  ◌==◌, str_eq, str_eq_iff, Bool-cases, is_none, Ensures, Ensures-skip,
}
use psv.Base.Int.{pos}
use psv.Text.{Text, codes}
use psv.Value.{Value, Fields, bool, int, str, end, field, get}
use psv.Text.Laws.{text_eq_refl}
use psv.RunRecord.{
  Library, Run, unsigned, with_field, without_run_id, content_hash, build_run_record,
  verify_run_record,
}

without-with :
    (fs : Fields) (v : Value) → without_run_id (with_field fs "runId" v) ≡ without_run_id fs
unfolding without_run_id with_field
without-with end v = refl
without-with (field j w fs) v = rw (without-with fs v) refl

get-with :
    (k : String) (fs : Fields) (v : Value) → get k fs ≡ none → get k (with_field fs k v) ≡ some v
unfolding get with_field
get-with k end v h = rw ((str_eq_iff k k).1 refl) refl
get-with k (field j w fs) v h = elim (Bool-cases (str_eq j k)) [
  | inl t ↦ absurd (ground (arith, t, h))
  | inr f ↦ rw f (get-with k fs v (ground (arith, f, h)))
]

get-with_other :
    (k j : String) (fs : Fields) (v : Value)
    → str_eq j k ≡ false
    → get k (with_field fs j v) ≡ get k fs
unfolding get with_field
get-with_other k j end v h = rw h refl
get-with_other k j (field i w fs) v h = rw (get-with_other k j fs v h) refl

sealed_verifies :
    (lib : Library) (fs : Fields)
    → get "runId" fs ≡ none
    → verify_run_record lib (with_field fs "runId" (str (content_hash lib fs))) ≡ true
unfolding verify_run_record content_hash
sealed_verifies lib fs h =
    rw (get-with "runId" fs (str (codes "sha256:" ++ lib.digest (without_run_id fs))) h) (
      rw (without-with fs (str (codes "sha256:" ++ lib.digest (without_run_id fs))))
        (text_eq_refl (codes "sha256:" ++ lib.digest (without_run_id fs))))

consistent_iff :
    (e : Option Text) (code : ℕ)
    → (some (bool (is_none e && code == 0)) ≡ some (bool true))
      ↔ ((e ≡ none) × (some (int (pos code)) ≡ some (int (pos 0))))
consistent_iff none code = (λ h. (refl, ground (arith, h)), λ (a, b). ground (arith, b))
consistent_iff (some m) code = (λ h. ground (arith, h), λ (a, b). cc (a))

-- A record that is built passes the check of its content hash, and is marked consistent exactly if
-- the run had no error and the exit code 0.
pub build_run_record-verifies :
    (lib : Library) (r : Run)
    → Ensures
        (λ run.
          (verify_run_record lib run ≡ true)
          × ((get "consistent" run ≡ some (bool true))
              ↔ ((r.error ≡ none) × (get "exitCode" run ≡ some (int (pos 0))))))
        (build_run_record lib r)
unfolding build_run_record
build_run_record-verifies lib r = Ensures-skip _ _ λ _. Ensures-skip _ _ λ code.
    Ensures-skip _ _ λ _. Ensures-skip _ _ λ _.
      (let v = str (content_hash lib (unsigned lib r code)) in
        let c : get "consistent" (with_field (unsigned lib r code) "runId" v)
            ≡ some (bool (is_none r.error && code == 0)) =
          get-with_other "consistent" "runId" (unsigned lib r code) v refl ∙ unfold get in refl in
        let x : get "exitCode" (with_field (unsigned lib r code) "runId" v)
            ≡ some (int (pos code)) =
          get-with_other "exitCode" "runId" (unsigned lib r code) v refl ∙ unfold get in refl in
        let (s, t) = consistent_iff r.error code in
        record {
          holds = (
            sealed_verifies lib (unsigned lib r code) (unfold get in refl),
            (λ h. (let (a, b) = s (sym c ∙ h) in (a, x ∙ b)), λ (a, b). c ∙ t (a, sym x ∙ b)),
          );
        })
