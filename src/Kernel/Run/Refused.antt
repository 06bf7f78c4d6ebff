-- ===== src/Kernel/Run/Refused.antt =====
-- Mutations that are refused.
use apex_vnext.Common.{
  String, ◌≡◌, ◌≢◌, ◌∙◌, ap, inl, inr, ◌⊎◌, Bool, Option, ok, err, arith, eq_iff, Result-cases,
  string_Eq,
}
use apex_vnext.Kernel.Canonical.{Text, Json, sha256_json}
use apex_vnext.Kernel.Run.{
  RunDisk, RunError, RunMutation, Stage, recover, plan, mutate, read_raw, stale_run_hash,
}
use apex_vnext.Kernel.Run.Atomic.{read_raw-current}

module _ (sha256_text : Text → String) (check : Json → Bool) where
  plan-stale :
      (m : RunMutation) (disk : RunDisk) (run : Json)
      → read_raw check disk ≡ ok run
      → m.expected_run_hash ≢ sha256_json sha256_text run
      → plan sha256_text check m disk
        ≡ err (stale_run_hash m.expected_run_hash (sha256_json sha256_text run))
  unfolding plan
  plan-stale m disk run h stale =
      ground (arith, eq_iff (sha256_json sha256_text run) m.expected_run_hash)

  mutate-recovered :
      (fault : Option Stage) (m : RunMutation) (disk : RunDisk) (x : RunError)
      → recover sha256_text disk ≡ (ok tt, (recover sha256_text disk).1)
      → plan sha256_text check m (recover sha256_text disk).1 ≡ err x
      → mutate sha256_text fault check m disk ≡ (err x, (recover sha256_text disk).1)
  unfolding mutate
  mutate-recovered fault m disk x h planned = ground arith

  mutate-unrecovered :
      (fault : Option Stage) (m : RunMutation) (disk : RunDisk) (x : RunError)
      → (recover sha256_text disk).0 ≡ err x
      → mutate sha256_text fault check m disk ≡ (err x, (recover sha256_text disk).1)
  unfolding mutate
  mutate-unrecovered fault m disk x h = ground arith

  plan-unread :
      (m : RunMutation) (disk : RunDisk) (x : RunError)
      → read_raw check disk ≡ err x
      → plan sha256_text check m disk ≡ err x
  unfolding plan
  plan-unread m disk x h = ground arith

  -- No update is lost: whatever is on the disk, a pending intent included, a mutation that was computed
  -- from another version of the run than the one that the recovery before it leaves is refused. It
  -- writes nothing but what that recovery writes, whatever it would do and wherever it may be stopped;
  -- it throws the error of the recovery or of the reading of the run if these fail, and otherwise the
  -- stale digest beside the actual one.
  pub stale_hash_refused :
      (fault : Option Stage) (m : RunMutation) (disk : RunDisk)
      → m.expected_run_hash ≢ sha256_json sha256_text (recover sha256_text disk).1.run_file
      → (x : RunError) × (mutate sha256_text fault check m disk
          ≡ (err x, (recover sha256_text disk).1))
        × (((recover sha256_text disk).0 ≡ err x)
            ⊎ ((read_raw check (recover sha256_text disk).1 ≡ err x)
                ⊎ (x
                    ≡ stale_run_hash m.expected_run_hash
                        (sha256_json sha256_text (recover sha256_text disk).1.run_file))))
  stale_hash_refused fault m disk stale =
      let left = (recover sha256_text disk).1 in
      elim (Result-cases (recover sha256_text disk).0) [
        | inr (x, e) ↦ (x, mutate-unrecovered fault m disk x e, inl e)
        | inl (u, e) ↦
            let recovered : recover sha256_text disk ≡ (ok tt, left) = ap (λ r. (r, left)) e in
            elim (Result-cases (read_raw check left)) [
              | inr (x, f) ↦ (
                x,
                mutate-recovered fault m disk x recovered (plan-unread m left x f),
                inr (inl f),
              )
              | inl (run, f) ↦
                  let same = read_raw-current sha256_text check left run f in
                  let actual = ap (sha256_json sha256_text) same in
                  (
                    stale_run_hash m.expected_run_hash (sha256_json sha256_text run),
                    mutate-recovered fault m disk _ recovered
                        (plan-stale m left run f (λ q. stale (q ∙ actual))),
                    inr (inr (ap (stale_run_hash m.expected_run_hash) actual)),
                  )
            ]
      ]
