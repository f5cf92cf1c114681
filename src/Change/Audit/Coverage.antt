-- ===== src/Change/Audit/Coverage.antt =====
-- About the notices that the audit of all chains looks at.
use law_cast_backend.Base.{
  ℕ, ◌≡◌, refl, inl, inr, List, [], ◌∷◌, All, arith, ltb, ◌==◌, length, map, Bool-cases, subst,
  length-append,
}
use law_cast_backend.Change.Text.{Text}
use law_cast_backend.Change.Event.{Event}
use law_cast_backend.Change.Append.{Store}
use law_cast_backend.Change.Audit.{Report, verify_notice_chain}
use law_cast_backend.Change.Audit.AllChains.{
  put_notice, notices_of, all_issues, verify_all_chains, run_scheduled_chain_audit_internal,
}

module _ (P : ℕ → Type 0) where
  put_notice-All : (n : ℕ) (ms : List ℕ) → All P (put_notice n ms) → P n × All P ms
  unfolding put_notice
  put_notice-All n [] h = h
  put_notice-All n (m ∷ ms) h = elim (Bool-cases (ltb n m)) [
    | inl below ↦ (rw below at h)
    | inr above ↦ elim (Bool-cases (n == m)) [
      | inl same ↦
          let (here, rest) : P m × All P ms = (rw (above, same) at h) in
          let eq : m ≡ n = ground arith in (subst P eq here, (here, rest))
      | inr other ↦
          let (here, rest) : P m × All P (put_notice n ms) = (rw (above, other) at h) in
          let (mine, others) = put_notice-All n ms rest in (mine, (here, others))
    ]
  ]

  notices_of-All :
      (events : List Event) → All P (notices_of events) → All (λ e. P e.notice_num) events
  unfolding notices_of
  notices_of-All [] h = tt
  notices_of-All (e ∷ es) h =
      let (here, rest) = put_notice-All e.notice_num (notices_of es) h in
      (here, notices_of-All es rest)

empty_list {ℓ} : {A : Type ℓ} (xs : List A) → length xs ≡ 0 → xs ≡ []
empty_list [] h = refl
empty_list (x ∷ xs) h = absurd (omega (arith, h))

no_issues :
    (f : ℕ → Report) (notices : List ℕ)
    → length (all_issues (map f notices)) ≡ 0
    → All (λ n. (f n).issues ≡ []) notices
unfolding all_issues
no_issues f [] h = tt
no_issues f (n ∷ ns) h =
    let sum = length-append (f n).issues (all_issues (map f ns)) in
    (empty_list (f n).issues (omega (arith, sum, h)), no_issues f ns (omega (arith, sum, h)))

-- If the scheduled audit counts no failure, then the chain of every event's notice has no issue.
pub run_scheduled_chain_audit_internal_lem :
    (sha256_hex : Text → Text) (s : Store)
    → (run_scheduled_chain_audit_internal sha256_hex s).failure_count ≡ 0
    → All (λ e. (verify_notice_chain sha256_hex s e.notice_num).issues ≡ []) s.events
unfolding run_scheduled_chain_audit_internal verify_all_chains
run_scheduled_chain_audit_internal_lem sha256_hex s none_failed =
    notices_of-All (λ n. (verify_notice_chain sha256_hex s n).issues ≡ []) s.events
      (no_issues (verify_notice_chain sha256_hex s) (notices_of s.events) none_failed)
