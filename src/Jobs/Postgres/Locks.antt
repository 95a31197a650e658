-- ===== src/Jobs/Postgres/Locks.antt =====
-- Claims of several workers at once: `claim_next` of apps/api/app/jobs/store.py. A statement first
-- selects and locks its row, and later updates it and commits, which releases the lock; other
-- statements run between. PostgreSQL checks the conditions again on the row that it locks, so
-- the selection reads the rows as they are then.
use zero_node.Prelude.{
  ℕ, String, ◌≡◌, refl, sym, ap, ◌∙◌, transport, Bool, true, false, not, ◌&&◌, ◌||◌, some, List, [],
  ◌∷◌, exists, Bool-cases, Option-cases, ◌⊎◌, inl, inr, arith, leb, ◌==◌, if◌then◌else◌,
}
use zero_node.Jobs.State.{Job, is_queued}
use zero_node.Jobs.Postgres.{
  JobRow, least_id, select_where, row_ready, update_claimed, select_for_update, claim_next,
}

abbrev pub among : ℕ → List ℕ → Bool
among k = exists (λ j. j == k)

abbrev pub Distinct : List ℕ → Type 0
Distinct [] = Unit
Distinct (k ∷ ks) = (among k ks ≡ false) × Distinct ks

-- One of the statements on `k` ends.
abbrev pub without : ℕ → List ℕ → List ℕ
without k [] = []
without k (j ∷ js) = let rest = without k js in if j == k then js else j ∷ rest

other-among : (k : ℕ) (ks : List ℕ) → among k ks ≡ false → without k ks ≡ ks
other-among k [] h = refl
other-among k (j ∷ js) h = ground (arith, other-among k js)

among-without :
    (j k : ℕ) (ks : List ℕ)
    → Distinct ks
    → among j (without k ks) ≡ true
    → (among j ks ≡ true) × ((j == k) ≡ false)
among-without j k [] d h = cc
among-without j k (x ∷ xs) d h = elim (Bool-cases (x == k)) [
  | inl here ↦ ground arith
  | inr there ↦ ground (arith, among-without j k xs d.1)
]

Distinct-without : (k : ℕ) (ks : List ℕ) → Distinct ks → Distinct (without k ks)
Distinct-without k [] d = tt
Distinct-without k (x ∷ xs) d = elim (Bool-cases (x == k)) [
  | inl here ↦ rw here d.1
  | inr there ↦ rw there (
    elim (Bool-cases (among x (without k xs))) [
      | inl back ↦ absurd (ground (arith, among-without x k xs d.1 back))
      | inr gone ↦ gone
    ],
    Distinct-without k xs d.1,
  )
]

-- The rows, the row locks, the rows of the statements that have selected and not yet committed, and
-- those that claims have answered with.
pub record Tables (J : Type 0) : Type 0 where
  pub rows : List (JobRow J)
  pub locked : ℕ → Bool
  pub pending : List ℕ
  pub answered : List ℕ

module _ {J : Type 0} where
  pub data Step (s t : Tables J) : Type 0 where
    selects :
        (now : ℕ) (r : JobRow J) (locks : ℕ → Bool)
        → select_for_update s.locked now s.rows ≡ some (r, locks)
        → t ≡ record s { locked = locks; pending = r.id ∷ s.pending }
        → Step s t
    commits :
        (now : ℕ) (w : String) (l k : ℕ)
        → among k s.pending ≡ true
        → t ≡ record {
          rows = update_claimed now w l k s.rows;
          locked = λ j. not (j == k) && s.locked j;
          pending = without k s.pending;
          answered = k ∷ s.answered;
        }
        → Step s t

  pub data Steps (s : Tables J) : Tables J → Type 0 where
    done : Steps s s
    next : {t u : Tables J} → Steps s t → Step t u → Steps s u

  abbrev pub idle : List (JobRow J) → Tables J
  idle rows = record { rows = rows; locked = λ k. false; pending = []; answered = [] }

  -- A row with this id waits in the queue.
  abbrev waits : List (JobRow J) → ℕ → Bool
  waits rows k = exists (λ r. r.id == k && is_queued r.entry.status) rows

  waits-claimed :
      (now : ℕ) (w : String) (l k j : ℕ) (rows : List (JobRow J))
      → waits (update_claimed now w l k rows) j ≡ (not (j == k) && waits rows j)
  waits-claimed now w l k j [] = ground arith
  waits-claimed now w l k j (r ∷ rs) = elim (Bool-cases (r.id == k)) [
    | inl this ↦ rw this (ground (arith, waits-claimed now w l k j rs))
    | inr other ↦ rw other (ground (arith, waits-claimed now w l k j rs))
  ]

  least_cases :
      (r : JobRow J) (rs : List (JobRow J)) (q : JobRow J)
      → least_id (r ∷ rs) ≡ some q
      → (r ≡ q) ⊎ (least_id rs ≡ some q)
  least_cases r rs q e = elim (Option-cases (least_id rs)) [
    | inl only ↦ inl (ground arith)
    | inr (k, rest) ↦ elim (Bool-cases (leb r.id k.id)) [
      | inl first ↦ inl (ground arith)
      | inr later ↦ inr (ground arith)
    ]
  ]

  -- The row that is selected passes the test, and stands in the table.
  least_passes :
      (p : JobRow J → Bool) (rows : List (JobRow J)) (q : JobRow J)
      → least_id (select_where p rows) ≡ some q
      → (p q ≡ true) × (is_queued q.entry.status ≡ true → waits rows q.id ≡ true)
  least_passes p [] q e = cc
  least_passes p (r ∷ rs) q e = elim (Bool-cases (p r)) [
    | inr miss ↦
        let (passes, here) = least_passes p rs q (ground arith) in
        (passes, λ h. ground (arith, here h))
    | inl hit ↦ elim (least_cases r (select_where p rs) q (ground arith)) [
      | inl same ↦ (
        ap p (sym same) ∙ hit,
        λ h. ground (arith, ap (λ x. x.id) same, ap (λ x. is_queued x.entry.status) same),
      )
      | inr rest ↦
          let (passes, here) = least_passes p rs q rest in (passes, λ h. ground (arith, here h))
    ]
  ]

  some-eq : (x y : JobRow J × (ℕ → Bool)) → some x ≡ some y → x ≡ y
  some-eq x y e = ground arith

  abbrev Takes : (ℕ → Bool) → List (JobRow J) → JobRow J → (ℕ → Bool) → Type 0
  Takes locked rows r locks =
      (locked r.id ≡ false)
      × (waits rows r.id ≡ true)
      × ((k : ℕ) → locks k ≡ (k == r.id || locked k))

  select-found :
      (locked : ℕ → Bool) (now : ℕ) (rows : List (JobRow J)) (q r : JobRow J) (locks : ℕ → Bool)
      → (row_ready now q && not (locked q.id)) ≡ true
      → (is_queued q.entry.status ≡ true → waits rows q.id ≡ true)
      → ◌≡◌ {A = JobRow J × (ℕ → Bool)} (q, λ k. k == q.id || locked k) (r, locks)
      → Takes locked rows r locks
  select-found locked now rows q r locks passes here e =
      transport (ap (λ x. Takes locked rows x.0 x.1) e)
        (ground arith, here (ground arith), λ k. refl)

  select-Takes :
      (locked : ℕ → Bool) (now : ℕ) (rows : List (JobRow J)) (r : JobRow J) (locks : ℕ → Bool)
      → select_for_update locked now rows ≡ some (r, locks)
      → Takes locked rows r locks
  unfolding select_for_update
  select-Takes locked now rows r locks e =
      elim (Option-cases
        (least_id (select_where (λ q. row_ready now q && not (locked q.id)) rows))) [
          | inl nothing ↦ absurd (ground arith)
          | inr (q, found) ↦
              let (passes, here) =
                least_passes (λ x. row_ready now x && not (locked x.id)) rows q found in
              let shape : select_for_update locked now rows ≡ some (q, λ k. k == q.id || locked k) =
                rw (found, select_for_update) refl in
              select-found locked now rows q r locks passes here (some-eq _ _ (sym shape ∙ e))
        ]

  -- A claim that runs by itself is a selection and its commit: where it answers with a job, the two
  -- steps lead to the rows that it leaves, with that job answered and nothing under way.
  claim_next-Steps :
      (now : ℕ) (w : String) (l : ℕ) (rows : List (JobRow J)) (job : Job J)
      → (claim_next (λ _. false) now w l rows).1 ≡ some job
      → (t : Tables J) × Steps (idle rows) t
        × (t.rows ≡ (claim_next (λ _. false) now w l rows).0)
        × (t.answered ≡ job.id ∷ [])
        × (t.pending ≡ [])
  unfolding claim_next
  claim_next-Steps now w l rows job e =
      elim (Option-cases (select_for_update (λ _. false) now rows)) [
        | inl nothing ↦ absurd (ground arith)
        | inr ((r, locks), found) ↦
            let same : r.id ≡ job.id = ground arith in
            let mine : (r.id == r.id) ≡ true = ground arith in
            (
              _,
              next (next done (selects now r locks found refl))
                  (commits now w l r.id (ground arith) refl),
              rw (found, claim_next) refl,
              ap (λ k. k ∷ []) same,
              rw mine refl,
            )
      ]

  -- What holds between the statements.
  record Kept (t : Tables J) : Type 0 where
    held : (k : ℕ) → among k t.pending ≡ true → t.locked k ≡ true
    queued : (k : ℕ) → among k t.pending ≡ true → waits t.rows k ≡ true
    taken : (k : ℕ) → among k t.answered ≡ true → waits t.rows k ≡ false
    one_each : Distinct t.pending
    all_differ : Distinct t.answered

  Step-Kept : (s t : Tables J) → Step s t → Kept s → Kept t
  Step-Kept s t (selects now r locks e is) h =
      let (free, here, locks_eq) = select-Takes s.locked now s.rows r locks e in
      rw is (record {
        held = λ k m. elim (Bool-cases (r.id == k)) [
          | inl this ↦ ground (arith, locks_eq k)
          | inr other ↦ ground (arith, locks_eq k, h.held k (ground arith))
        ];
        queued = λ k m. elim (Bool-cases (r.id == k)) [
          | inl this ↦ let same : r.id ≡ k = ground arith in ap (waits s.rows) (sym same) ∙ here
          | inr other ↦ h.queued k (ground arith)
        ];
        taken = h.taken;
        one_each = (
          elim (Bool-cases (among r.id s.pending)) [
            | inl twice ↦ absurd (cc (h.held r.id twice, free))
            | inr fresh ↦ fresh
          ],
          h.one_each,
        );
        all_differ = h.all_differ;
      })
  Step-Kept s t (commits now w l k m is) h = rw is (record {
    held = λ j n.
        let (before, other) = among-without j k s.pending h.one_each n in
        ground (arith, h.held j before);
    queued = λ j n.
        let (before, other) = among-without j k s.pending h.one_each n in
        waits-claimed now w l k j s.rows ∙ ground (arith, h.queued j before);
    taken = λ j n. waits-claimed now w l k j s.rows ∙ elim (Bool-cases (k == j)) [
      | inl this ↦ ground arith
      | inr other ↦ ground (arith, h.taken j (ground arith))
    ];
    one_each = Distinct-without k s.pending h.one_each;
    all_differ = (
      elim (Bool-cases (among k s.answered)) [
        | inl twice ↦ absurd (cc (h.taken k twice, h.queued k m))
        | inr fresh ↦ fresh
      ],
      h.all_differ,
    );
  })

  idle-Kept : (rows : List (JobRow J)) → Kept (idle rows)
  idle-Kept rows = record {
    held = λ k m. cc;
    queued = λ k m. cc;
    taken = λ k m. cc;
    one_each = tt;
    all_differ = tt;
  }

  Steps-Kept : {s t : Tables J} → Steps s t → Kept s → Kept t
  Steps-Kept done h = h
  Steps-Kept (next {t} {u} steps step) h = Step-Kept t u step (Steps-Kept steps h)

  -- From any rows, with no lock held, however the selections and the commits of claims are
  -- interleaved and no other statement runs, no two claims answer with the same job, and no two that
  -- are under way have selected the same row.
  pub claims_differ :
      (rows : List (JobRow J)) (t : Tables J)
      → Steps (idle rows) t
      → Distinct t.answered × Distinct t.pending
  claims_differ rows t steps =
      let h = Steps-Kept steps (idle-Kept rows) in (h.all_differ, h.one_each)
