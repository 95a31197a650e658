-- ===== src/Audit/Ledger/Append.antt =====
-- Appending to a ledger and verifying it: apps/api/app/audit/store.py over ledger.py.
use zero_node.Prelude.{String, ◌≡◌, refl, true, some, List, [], ◌∷◌, ◌++◌, lookup}
use zero_node.Audit.Record.{ApprovalRecord, SealedApproval, Crypto}
use zero_node.Audit.Ledger.{
  Keys, known, genesis_hash, last_row, head_hash_of, record_hash, key_id_for, seal, verify_chain,
  append_row,
}
use zero_node.Audit.Ledger.Chain.{IsSealed, IsChain, verify_chain_iff}

module _ (c : Crypto) where
  open c use {Evidence, Key, public_key, sign, verify}

  -- The hash that the next row must name.
  abbrev head_after : String → List (SealedApproval Evidence) → String
  head_after previous [] = previous
  head_after previous (row ∷ rows) = head_after row.hash rows

  head_after-last :
      (row : SealedApproval Evidence) (rows : List (SealedApproval Evidence))
      → head_after row.hash rows ≡ head_hash_of (last_row (row ∷ rows))
  head_after-last row [] = refl
  head_after-last row (next ∷ rows) = head_after-last next rows

  head_after-genesis :
      (rows : List (SealedApproval Evidence))
      → head_after genesis_hash rows ≡ head_hash_of (last_row rows)
  head_after-genesis [] = refl
  head_after-genesis (row ∷ rows) = head_after-last row rows

  IsChain-append :
      (keys : Keys) (previous : String) (rows : List (SealedApproval Evidence))
      (row : SealedApproval Evidence)
      → IsChain c keys previous rows
      → IsSealed c keys (head_after previous rows) row
      → IsChain c keys previous (rows ++ row ∷ [])
  IsChain-append keys previous [] row h s = (s, tt)
  IsChain-append keys previous (r ∷ rs) row h s = (h.0, IsChain-append keys r.hash rs row h.1 s)

  -- A signature by a key verifies under its own public key.
  abbrev pub SignsCorrectly : Key → Type 0
  SignsCorrectly key = (digest : String) → verify (public_key key) digest (sign key digest) ≡ true

  seal-IsSealed :
      (keys : Keys) (previous : String) (key : Key) (fields : ApprovalRecord Evidence)
      → SignsCorrectly key
      → known (lookup (key_id_for c (public_key key)) keys) ≡ some (public_key key)
      → IsSealed c keys previous (seal c key (record fields { prev_hash = previous }))
  unfolding seal
  seal-IsSealed keys previous key fields law trusted = record {
    linked = refl;
    hashed = refl;
    public = public_key key;
    key_known = trusted;
    signed = law (record_hash c (record fields { prev_hash = previous }));
  }

  -- A ledger that verifies still does after an append, if the signing key is among the trusted ones
  -- and signs correctly.
  pub append-verifies :
      (keys : Keys) (key : Key) (fields : ApprovalRecord Evidence)
      (rows : List (SealedApproval Evidence))
      → SignsCorrectly key
      → known (lookup (key_id_for c (public_key key)) keys) ≡ some (public_key key)
      → (verify_chain c keys rows).valid ≡ true
      → (verify_chain c keys (append_row c key fields rows)).valid ≡ true
  unfolding append_row
  append-verifies keys key fields rows law trusted ok =
      (verify_chain_iff c keys (append_row c key fields rows)).1 (
        IsChain-append keys genesis_hash rows
          (seal c key (record fields { prev_hash = head_hash_of (last_row rows) }))
          ((verify_chain_iff c keys rows).0 ok)
          (rw (head_after-genesis rows)
            (seal-IsSealed keys (head_hash_of (last_row rows)) key fields law trusted)))

  -- Every binding of the first key set is one of the second.
  abbrev pub Extends : Keys → Keys → Type 0
  Extends old new =
      (key_id public : String)
      → known (lookup key_id old) ≡ some public
      → known (lookup key_id new) ≡ some public

  IsChain-Extends :
      (old new : Keys) (previous : String) (rows : List (SealedApproval Evidence))
      → Extends old new
      → IsChain c old previous rows
      → IsChain c new previous rows
  IsChain-Extends old new previous [] ext h = tt
  IsChain-Extends old new previous (row ∷ rows) ext h =
      let s = h.0 in
      (
        record {
          linked = s.linked;
          hashed = s.hashed;
          public = s.public;
          key_known = ext row.key_id s.public s.key_known;
          signed = s.signed;
        },
        IsChain-Extends old new row.hash rows ext h.1,
      )

  -- A ledger stays verifiable under any key set that still binds every key id it bound.
  pub verify_chain-Extends :
      (old new : Keys) (rows : List (SealedApproval Evidence))
      → Extends old new
      → (verify_chain c old rows).valid ≡ true
      → (verify_chain c new rows).valid ≡ true
  verify_chain-Extends old new rows ext ok =
      (verify_chain_iff c new rows).1
        (IsChain-Extends old new genesis_hash rows ext ((verify_chain_iff c old rows).0 ok))
