-- ===== src/Auth/RateLimit/Bounded.antt =====
-- The attempts admitted in a window of time: apps/api/app/auth/ratelimit.py.
use zero_node.Prelude.{
  ℕ, ◌+◌, ◌≤◌, String, ◌≡◌, refl, sym, ap, transport, ◌∙◌, true, false, ◌&&◌, not, List, [], ◌∷◌,
  ◌++◌, length, leb, ltb, insert, lookup-insert, str_eq, eq_iff, Bool-cases, inl, inr, arith,
  if◌then◌else◌,
}
use zero_node.Auth.RateLimit.{SlidingWindow, Verdict, allowed, expire, hits_of, retry_after, check}

-- How many of the times are still in the window at a moment.
abbrev pub within : ℕ → ℕ → List ℕ → ℕ
within window moment [] = 0
within window moment (h ∷ hs) = (if ltb (h + window) moment then 0 else 1) + within window moment hs

-- How many attempts of a key, of those that were allowed, are in the window at a moment.
abbrev pub admitted : ℕ → ℕ → String → List (String × ℕ) → ℕ
admitted window moment key [] = 0
admitted window moment key ((k, m) ∷ log) =
    (if str_eq k key && not (ltb (m + window) moment) then 1 else 0)
    + admitted window moment key log

abbrev pub noted : String → ℕ → Verdict → List (String × ℕ) → List (String × ℕ)
noted key moment allowed log = (key, moment) ∷ log
noted key moment _ log = log

-- Calls at times that do not run back, with the attempts that were allowed and the last time.
pub data Calls
    : SlidingWindow → List (String × ℕ) → ℕ → SlidingWindow → List (String × ℕ) → ℕ → Type 0 where
  stop : {s : SlidingWindow} {log : List (String × ℕ)} {now : ℕ} → Calls s log now s log now
  called :
      {s t : SlidingWindow} {log log' : List (String × ℕ)} {now last : ℕ} (key : String)
      (moment : ℕ)
      → now ≤ moment
      → Calls
          (check key moment s).0
          (noted key moment (check key moment s).1 log)
          moment
          t
          log'
          last
      → Calls s log now t log' last

within-le-length : (w t : ℕ) (hs : List ℕ) → within w t hs ≤ length hs
within-le-length w t [] = omega arith
within-le-length w t (h ∷ hs) = ground (arith, within-le-length w t hs)

within-append :
    (w t m : ℕ) (hs : List ℕ) → within w t (hs ++ m ∷ []) ≡ within w t hs + within w t (m ∷ [])
within-append w t m [] = omega arith
within-append w t m (h ∷ hs) = ground (arith, within-append w t m hs)

within-expire : (w now t : ℕ) (hs : List ℕ) → now ≤ t → within w t (expire w now hs) ≡ within w t hs
within-expire w now t [] le = refl
within-expire w now t (h ∷ hs) le = elim (Bool-cases (ltb (h + w) now)) [
  | inl old ↦ ground (arith, within-expire w now t hs le)
  | inr young ↦ rw (young, expire) refl
]

length-expire : (w now : ℕ) (hs : List ℕ) → length (expire w now hs) ≤ length hs
length-expire w now [] = omega arith
length-expire w now (h ∷ hs) = ground (arith, length-expire w now hs)

length-append_one : (m : ℕ) (hs : List ℕ) → length (hs ++ m ∷ []) ≡ length hs + 1
length-append_one m [] = omega arith
length-append_one m (h ∷ hs) = ground (arith, length-append_one m hs)

-- The hits of each key are what was allowed and is still in a window that ends now or later.
pub record IsBounded (s : SlidingWindow) (log : List (String × ℕ)) (now : ℕ) : Type 0 where
  pub counted :
      (key : String) (t : ℕ)
      → now ≤ t
      → admitted s.window t key log ≡ within s.window t (hits_of key s.hits)
  pub room : (key : String) → length (hits_of key s.hits) ≤ s.limit

hits-insert :
    (key k : String) (hs : List ℕ) (d : List (String × List ℕ))
    → hits_of k (insert key hs d) ≡ (if str_eq key k then hs else hits_of k d)
hits-insert key k hs d = ground (arith, lookup-insert key k hs d)

noted_refused :
    (key : String) (moment w : ℕ) (hs : List ℕ) (log : List (String × ℕ))
    → noted key moment (retry_after w moment hs) log ≡ log
noted_refused key moment w [] log = refl
noted_refused key moment w (h ∷ hs) log = refl

check_full :
    (key : String) (moment : ℕ) (s : SlidingWindow)
    → leb s.limit (length (expire s.window moment (hits_of key s.hits))) ≡ true
    → check key moment s ≡ (
      record s { hits = insert key (expire s.window moment (hits_of key s.hits)) s.hits },
      retry_after s.window moment (expire s.window moment (hits_of key s.hits)),
    )
unfolding check
check_full key moment s e = rw (e, check) refl

check_room :
    (key : String) (moment : ℕ) (s : SlidingWindow)
    → leb s.limit (length (expire s.window moment (hits_of key s.hits))) ≡ false
    → check key moment s ≡ (
      record s {
        hits = insert key (expire s.window moment (hits_of key s.hits) ++ moment ∷ []) s.hits;
      },
      allowed,
    )
unfolding check
check_room key moment s e = rw (e, check) refl

-- The hits of one key are replaced.
put-IsBounded :
    (key : String) (moment now : ℕ) (s : SlidingWindow) (log log' : List (String × ℕ)) (hs : List ℕ)
    → now ≤ moment
    → IsBounded s log now
    → ((t : ℕ) → moment ≤ t → admitted s.window t key log' ≡ within s.window t hs)
    → ((k : String) (t : ℕ)
        → str_eq key k ≡ false
        → admitted s.window t k log' ≡ admitted s.window t k log)
    → length hs ≤ s.limit
    → IsBounded (record s { hits = insert key hs s.hits }) log' moment
put-IsBounded key moment now s log log' hs le h mine others short =
    let self : str_eq key key ≡ true = (eq_iff key key).1 refl in
    let here : hits_of key (insert key hs s.hits) ≡ hs =
      rw (hits-insert key key hs s.hits) (rw self refl) in
    record {
      counted = λ k t lt. elim (Bool-cases (str_eq key k)) [
        | inl same ↦
            transport
              (ap
                (λ j.
                  admitted s.window t j log' ≡ within s.window t (hits_of j (insert key hs s.hits)))
                ((eq_iff key k).0 same))
              (rw here (mine t lt))
        | inr other ↦
            rw (hits-insert key k hs s.hits)
              (rw other (others k t other ∙ h.counted k t (omega (arith, le, lt))))
      ];
      room = λ k. elim (Bool-cases (str_eq key k)) [
        | inl same ↦
            transport
              (ap (λ j. length (hits_of j (insert key hs s.hits)) ≤ s.limit)
                ((eq_iff key k).0 same))
              (rw here short)
        | inr other ↦ rw (hits-insert key k hs s.hits) (rw other (h.room k))
      ];
    }

check-IsBounded :
    (key : String) (moment now : ℕ) (s : SlidingWindow) (log : List (String × ℕ))
    → now ≤ moment
    → IsBounded s log now
    → IsBounded (check key moment s).0 (noted key moment (check key moment s).1 log) moment
check-IsBounded key moment now s log le h =
    let old = hits_of key s.hits in
    let hs = expire s.window moment (hits_of key s.hits) in
    let kept : (t : ℕ) → moment ≤ t → admitted s.window t key log ≡ within s.window t hs = λ t lt.
      h.counted key t (omega (arith, le, lt)) ∙ sym (within-expire s.window moment t old lt) in
    let short : length hs ≤ s.limit =
      omega (arith, length-expire s.window moment old, h.room key) in
    elim (Bool-cases (leb s.limit (length hs))) [
      | inl full ↦
          rw (check_full key moment s full, noted_refused key moment s.window hs log)
            (put-IsBounded key moment now s log log hs le h kept (λ k t other. refl) short)
      | inr free ↦ rw (check_room key moment s free) (
          put-IsBounded key moment now s log ((key, moment) ∷ log) (hs ++ moment ∷ []) le h
            (λ t lt.
              ground
                (arith, kept t lt, within-append s.window t moment hs, (eq_iff key key).1 refl))
            (λ k t other. ground (arith, other)) (ground (arith, length-append_one moment hs)))
    ]

Calls-IsBounded :
    {s t : SlidingWindow} {log log' : List (String × ℕ)} {now last : ℕ}
    → Calls s log now t log' last
    → IsBounded s log now
    → IsBounded t log' last
Calls-IsBounded stop h = h
Calls-IsBounded {s} {t} {log} {log'} {now} (called key moment le rest) h =
    Calls-IsBounded rest (check-IsBounded key moment now s log le h)

check_keeps :
    (key : String) (moment : ℕ) (s : SlidingWindow)
    → ((check key moment s).0.limit ≡ s.limit) × ((check key moment s).0.window ≡ s.window)
unfolding check
check_keeps key moment s =
    elim (Bool-cases (leb s.limit (length (expire s.window moment (hits_of key s.hits))))) [
      | inl full ↦ rw (check_full key moment s full) (refl, refl)
      | inr free ↦ rw (check_room key moment s free) (refl, refl)
    ]

Calls-keep :
    {s t : SlidingWindow} {log log' : List (String × ℕ)} {now last : ℕ}
    → Calls s log now t log' last
    → (t.limit ≡ s.limit) × (t.window ≡ s.window)
Calls-keep stop = (refl, refl)
Calls-keep {s} (called key moment le rest) =
    let (l, w) = Calls-keep rest in let (l', w') = check_keeps key moment s in (l ∙ l', w ∙ w')

abbrev pub fresh : ℕ → ℕ → SlidingWindow
fresh limit window = record { limit = limit; window = window; hits = [] }

-- From a new limiter, after calls for any keys at times that do not run back, at most `limit` attempts
-- of each key have been allowed within the window that ends at any time from the last call on.
pub admitted-le-limit :
    {limit window last : ℕ} {t : SlidingWindow} {log : List (String × ℕ)} (key : String) (time : ℕ)
    → Calls (fresh limit window) [] 0 t log last
    → last ≤ time
    → admitted window time key log ≤ limit
admitted-le-limit {limit} {window} {last} {t} {log} key time r le =
    let h = Calls-IsBounded r (record { counted = λ k u lt. refl; room = λ k. omega arith }) in
    let (l, w) = Calls-keep r in
    let counted = h.counted key time le in
    let most = within-le-length t.window time (hits_of key t.hits) in
    let count : admitted window time key log ≤ t.limit =
      rw (sym w) (omega (arith, counted, most, h.room key)) in
    omega (arith, count, l)
