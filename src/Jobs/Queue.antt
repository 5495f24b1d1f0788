-- ===== src/Jobs/Queue.antt =====
-- One job of a kind at a time, and its attempts.
use torrent_tv.Prelude.{
  ℕ, ◌+◌, ◌≤◌, ◌<◌, ◌≡◌, refl, sym, ap, ◌∙◌, true, false, List, [], ◌∷◌, inl, inr, In, Bool-cases,
  leb, arith,
}
use torrent_tv.Jobs.{Job, is_active, Enqueued, existing, fresh, same_key, enqueue}

-- Every listed job of the same key is neither queued nor running, and has fewer attempts.
abbrev pub Supersedes : Job → Job → List Job → Type 0
Supersedes job j listed =
    (e : Job)
    → In e listed
    → same_key job e ≡ true
    → (is_active e.state ≡ false) × (e.attempt < j.attempt)

abbrev pub IsEnqueued : Job → List Job → Enqueued → Type 0
IsEnqueued job listed (existing e) =
    In e listed × (same_key job e ≡ true) × (is_active e.state ≡ true)
IsEnqueued job listed (fresh j) =
    Supersedes job j listed × (job.attempt ≤ j.attempt) × (j ≡ record job { attempt = j.attempt })

module _ (job : Job) (e : Job) (rest : List Job) where
  existing_later :
      (n : ℕ) (r : Enqueued)
      → (same_key job e ≡ true → (is_active e.state ≡ false) × (e.attempt < n))
      → job.attempt ≤ n
      → IsEnqueued (record job { attempt = n }) rest r
      → IsEnqueued job (e ∷ rest) r
  existing_later n (existing x) h k (i, same, act) = (inr i, same, act)
  existing_later n (fresh j) h k (v, le, eq) = (all, omega arith, eq)
    where
      all : Supersedes job j (e ∷ rest)
      all x (inl at) s =
          let (ended, lt) = h (ap (same_key job) (sym at) ∙ s) in
          (
            ap (λ (y : Job). is_active y.state) at ∙ ended,
            ground (arith, ap (λ (y : Job). y.attempt) at),
          )
      all x (inr i) s = v x i s

-- An enqueued job is a listed active job of its key; or it is new, every listed job of its key is
-- neither queued nor running, and its attempt is greater than all of theirs.
pub enqueue-IsEnqueued :
    (job : Job) (listed : List Job) → IsEnqueued job listed (enqueue job listed)
unfolding enqueue
enqueue-IsEnqueued job [] = ((λ e i s. absurd i), omega arith, refl)
enqueue-IsEnqueued job (e ∷ rest) = elim (Bool-cases (same_key job e)) [
  | inl same ↦ elim (Bool-cases (is_active e.state)) [
    | inl act ↦ rw (same, act, enqueue) (inl refl, same, act)
    | inr ended ↦ elim (Bool-cases (leb job.attempt e.attempt)) [
      | inl above ↦
          rw (same, ended, above, enqueue)
            (existing_later job e rest (e.attempt + 1) _ (λ s. (ended, omega arith)) (ground arith)
              (enqueue-IsEnqueued (record job { attempt = e.attempt + 1 }) rest))
      | inr below ↦
          rw (same, ended, below, enqueue)
            (existing_later job e rest job.attempt _ (λ s. (ended, ground arith)) (omega arith)
              (enqueue-IsEnqueued job rest))
    ]
  ]
  | inr differs ↦
      rw (differs, enqueue)
        (existing_later job e rest job.attempt _ (λ s. cc) (omega arith)
          (enqueue-IsEnqueued job rest))
]
