-- ===== src/Audit/Ledger/Chain.antt =====
-- What an accepted ledger is: apps/api/app/audit/ledger.py.
use zero_node.Prelude.{
  ℕ, ◌+◌, String, ◌≡◌, refl, ◌↔◌, true, none, some, List, [], ◌∷◌, Option-cases, Bool-cases, inl,
  inr, arith, str_eq, eq_iff, lookup,
}
use zero_node.Audit.Record.{SealedApproval, Crypto}
use zero_node.Audit.Ledger.{
  Keys, known, genesis_hash, record_hash, row_fault, verify_from, verify_chain,
}

module _ (c : Crypto) where
  open c use {Evidence, Key, public_key, sign, verify}

  -- One row in its place: it names its predecessor, commits to its contents, and carries a
  -- signature that a known key verifies.
  pub record IsSealed (keys : Keys) (previous : String) (row : SealedApproval Evidence)
      : Type 0 where
    pub linked : row.entry.prev_hash ≡ previous
    pub hashed : record_hash c row.entry ≡ row.hash
    pub public : String
    pub key_known : known (lookup row.key_id keys) ≡ some public
    pub signed : verify public row.hash row.signature ≡ true

  abbrev pub IsChain : Keys → String → List (SealedApproval Evidence) → Type 0
  IsChain keys previous [] = Unit
  IsChain keys previous (row ∷ rows) = IsSealed keys previous row × IsChain keys row.hash rows

  row_fault_sound :
      (keys : Keys) (index : ℕ) (previous : String) (row : SealedApproval Evidence)
      → row_fault c keys index previous row ≡ none
      → IsSealed keys previous row
  unfolding row_fault
  row_fault_sound keys index previous row e =
      elim (Bool-cases (str_eq row.entry.prev_hash previous)) [
        | inr no_link ↦ absurd (ground arith)
        | inl link ↦ elim (Bool-cases (str_eq (record_hash c row.entry) row.hash)) [
          | inr no_hash ↦ absurd (ground arith)
          | inl hash ↦ elim (Option-cases (known (lookup row.key_id keys))) [
            | inl no_key ↦ absurd (ground arith)
            | inr (key, found) ↦ record {
              linked = (eq_iff row.entry.prev_hash previous).0 link;
              hashed = (eq_iff (record_hash c row.entry) row.hash).0 hash;
              public = key;
              key_known = found;
              signed = ground arith;
            }
          ]
        ]
      ]

  row_fault_complete :
      (keys : Keys) (index : ℕ) (previous : String) (row : SealedApproval Evidence)
      → IsSealed keys previous row
      → row_fault c keys index previous row ≡ none
  unfolding row_fault
  row_fault_complete keys index previous row s = ground (
    arith,
    (eq_iff row.entry.prev_hash previous).1 s.linked,
    (eq_iff (record_hash c row.entry) row.hash).1 s.hashed,
    s.key_known,
    s.signed,
  )

  verify_from_sound :
      (keys : Keys) (index : ℕ) (previous : String) (rows : List (SealedApproval Evidence))
      → (verify_from c keys index previous rows).valid ≡ true
      → IsChain keys previous rows
  unfolding verify_from
  verify_from_sound keys index previous [] e = tt
  verify_from_sound keys index previous (row ∷ rows) e =
      elim (Option-cases (row_fault c keys index previous row)) [
        | inl fine ↦ (
          row_fault_sound keys index previous row fine,
          verify_from_sound keys (index + 1) row.hash rows (rw (fine, verify_from) at e),
        )
        | inr (why, fault) ↦ absurd (ground arith)
      ]

  verify_from_complete :
      (keys : Keys) (index : ℕ) (previous : String) (rows : List (SealedApproval Evidence))
      → IsChain keys previous rows
      → (verify_from c keys index previous rows).valid ≡ true
  unfolding verify_from
  verify_from_complete keys index previous [] h = refl
  verify_from_complete keys index previous (row ∷ rows) h =
      rw (row_fault_complete keys index previous row h.0, verify_from)
        (verify_from_complete keys (index + 1) row.hash rows h.1)

  -- The walk accepts a ledger exactly when every row names the hash of the row before it (the first
  -- the genesis hash), commits to its own contents, and is signed by a known key.
  pub verify_chain_iff :
      (keys : Keys) (rows : List (SealedApproval Evidence))
      → ((verify_chain c keys rows).valid ≡ true) ↔ IsChain keys genesis_hash rows
  unfolding verify_chain
  verify_chain_iff keys rows =
      (verify_from_sound keys 0 genesis_hash rows, verify_from_complete keys 0 genesis_hash rows)
