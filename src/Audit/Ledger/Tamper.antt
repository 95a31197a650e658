-- ===== src/Audit/Ledger/Tamper.antt =====
-- What a verified ledger commits to: apps/api/app/audit/ledger.py and anchor.py.
use zero_node.Prelude.{
  ℕ, zero, suc, String, ◌≡◌, sym, ap, ◌∙◌, true, Option, none, some, List, [], ◌∷◌, map, get_elem?,
  arith,
}
use zero_node.Audit.Record.{ApprovalRecord, SealedApproval, Crypto}
use zero_node.Audit.Ledger.{Keys, genesis_hash, record_hash, verify_chain}
use zero_node.Audit.Ledger.Chain.{IsChain, verify_chain_iff}

abbrev pub take {ℓ} : {A : Type ℓ} → ℕ → List A → List A
take zero xs = []
take (suc n) [] = []
take (suc n) (x ∷ xs) = x ∷ take n xs

module _ (c : Crypto) where
  open c use {Evidence, Key}

  abbrev Row : Type 0
  Row = SealedApproval Evidence

  abbrev pub entries : List Row → List (ApprovalRecord Evidence)
  entries = map (λ row. row.entry)

  -- Two ledgers hold no two different records in the same place with the same SHA-256.
  abbrev pub NoCollision : List Row → List Row → Type 0
  NoCollision [] bs = Unit
  NoCollision (a ∷ as_) [] = Unit
  NoCollision (a ∷ as_) (b ∷ bs) =
      (record_hash c a.entry ≡ record_hash c b.entry → a.entry ≡ b.entry) × NoCollision as_ bs

  -- The hash of row `n`.
  abbrev pub hash_of : Option Row → Option String
  hash_of none = none
  hash_of (some row) = some row.hash

  -- The hash in row `n` commits to that row and all rows before it: here by recursion from the
  -- front, carrying that the links before were equal.
  prefix_agrees :
      (keys keys' : Keys) (previous previous' : String) (n : ℕ) (as_ bs : List Row) (h : String)
      → IsChain c keys previous as_
      → IsChain c keys' previous' bs
      → NoCollision as_ bs
      → hash_of (get_elem? as_ n) ≡ some h
      → hash_of (get_elem? bs n) ≡ some h
      → (previous ≡ previous') × (entries (take (suc n) as_) ≡ entries (take (suc n) bs))
  prefix_agrees keys keys' p p' n [] bs h ca cb fresh ea eb = cc
  prefix_agrees keys keys' p p' n (a ∷ as_) [] h ca cb fresh ea eb = absurd (ground arith)
  prefix_agrees keys keys' p p' zero (a ∷ as_) (b ∷ bs) h ca cb fresh ea eb =
      let hashes : a.hash ≡ b.hash = ground arith in
      let same = fresh.0 (ca.0.hashed ∙ hashes ∙ sym cb.0.hashed) in
      (
        sym ca.0.linked ∙ ap (λ (r : ApprovalRecord Evidence). r.prev_hash) same ∙ cb.0.linked,
        ap (λ r. r ∷ []) same,
      )
  prefix_agrees keys keys' p p' (suc n) (a ∷ as_) (b ∷ bs) h ca cb fresh ea eb =
      let (links, rest) =
        prefix_agrees keys keys' a.hash b.hash n as_ bs h ca.1 cb.1 fresh.1 ea eb in
      let same = fresh.0 (ca.0.hashed ∙ links ∙ sym cb.0.hashed) in
      (
        sym ca.0.linked ∙ ap (λ (r : ApprovalRecord Evidence). r.prev_hash) same ∙ cb.0.linked,
        cc (same, rest),
      )

  -- Two ledgers that verify, under any keys, and agree on the hash of one row agree on every record
  -- up to that row, unless two of those records collide under SHA-256: no earlier record can be
  -- altered, removed or inserted without changing the hash.
  pub hash_commits :
      (keys keys' : Keys) (n : ℕ) (as_ bs : List Row) (h : String)
      → (verify_chain c keys as_).valid ≡ true
      → (verify_chain c keys' bs).valid ≡ true
      → NoCollision as_ bs
      → hash_of (get_elem? as_ n) ≡ some h
      → hash_of (get_elem? bs n) ≡ some h
      → entries (take (suc n) as_) ≡ entries (take (suc n) bs)
  hash_commits keys keys' n as_ bs h va vb fresh ea eb =
      (prefix_agrees keys keys' genesis_hash genesis_hash n as_ bs h
        ((verify_chain_iff c keys as_).0 va) ((verify_chain_iff c keys' bs).0 vb) fresh ea eb).1
