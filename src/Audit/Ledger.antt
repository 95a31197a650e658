-- ===== src/Audit/Ledger.antt =====
-- Sealing and the walk over the chain: apps/api/app/audit/ledger.py, keys.py, store.py, anchor.py.
-- The table `approvals` is the list of its rows in the order of their ids. Its trigger refuses
-- UPDATE and DELETE, and the advisory lock makes an append one step.
pub mod Tests
pub mod Chain
pub mod Append
pub mod Tamper
use zero_node.Prelude.{
  ℕ, zero, suc, ◌+◌, ◌-◌, String, Bool, true, false, not, ◌&&◌, Option, none, some, List, [], ◌∷◌,
  ◌++◌, length, get_elem?, leb, ltb, ◌==◌, str_eq, lookup, insert, take_text, if◌then◌else◌,
}
use zero_node.Audit.Record.{
  ApprovalRecord, SealedApproval, Reason, intact, predecessor, contents, unknown_key, bad_signature,
  ChainReport, Anchor, Crypto,
}

abbrev pub genesis_hash : String
genesis_hash = "0000000000000000000000000000000000000000000000000000000000000000"

abbrev pub Keys : Type 0
Keys = List (String × String)

-- A key that is missing or empty counts as unknown.
abbrev pub known : Option String → Option String
known none = none
known (some key) = if str_eq key "" then none else some key

abbrev broken : ℕ → Reason → ChainReport
broken index why = record { valid = false; checked = index; broken_at = some index; reason = why }

abbrev pub last_row : {E : Type 0} → List (SealedApproval E) → Option (SealedApproval E)
last_row [] = none
last_row (row ∷ []) = some row
last_row (row ∷ next ∷ rows) = last_row (next ∷ rows)

abbrev pub head_hash_of : {E : Type 0} → Option (SealedApproval E) → String
head_hash_of none = genesis_hash
head_hash_of (some row) = row.hash

module _ (c : Crypto) where
  open c use {
    Evidence, Key, dumps_record, dumps_anchor, encode, sha256_hex, public_key, sign, verify,
  }

  pub record_hash : ApprovalRecord Evidence → String
  record_hash r = sha256_hex (dumps_record r)

  -- `key_id_for`, and the property `Signer.key_id`
  pub key_id_for : String → String
  key_id_for public = take_text 16 (sha256_hex (encode public))

  pub seal : Key → ApprovalRecord Evidence → SealedApproval Evidence
  seal key r = record {
    entry = r;
    hash = record_hash r;
    signature = sign key (record_hash r);
    key_id = key_id_for (public_key key);
  }

  -- What the loop of `verify_chain` checks of one row, in its order.
  pub row_fault : Keys → ℕ → String → SealedApproval Evidence → Option Reason
  row_fault keys index previous row =
      if not (str_eq row.entry.prev_hash previous)
      then some (predecessor index (take_text 12 row.entry.prev_hash) (take_text 12 previous))
      else if not (str_eq (record_hash row.entry) row.hash)
      then some (contents index)
      else elim (known (lookup row.key_id keys)) [
        | none ↦ some (unknown_key index row.key_id)
        | some public ↦
            if verify public row.hash row.signature then none else some (bad_signature index)
      ]

  pub verify_from : Keys → ℕ → String → List (SealedApproval Evidence) → ChainReport
  verify_from keys index previous [] = record {
    valid = true;
    checked = index;
    broken_at = none;
    reason = intact;
  }
  verify_from keys index previous (row ∷ rows) = elim (row_fault keys index previous row) [
    | some why ↦ broken index why
    | none ↦ verify_from keys (index + 1) row.hash rows
  ]

  pub verify_chain : Keys → List (SealedApproval Evidence) → ChainReport
  unfolding verify_from row_fault
  verify_chain keys rows = verify_from keys 0 genesis_hash rows

  -- `append_approval` up to the anchor: `fields` is the record but for its `prev_hash`, with the
  -- time of the call in `created_at`.
  pub append_row :
      Key
      → ApprovalRecord Evidence
      → List (SealedApproval Evidence)
      → List (SealedApproval Evidence)
  unfolding seal
  append_row key fields rows =
      rows ++ seal key (record fields { prev_hash = head_hash_of (last_row rows) }) ∷ []

  pub anchor_digest : Anchor → String
  anchor_digest a = sha256_hex (dumps_anchor a.head_hash a.record_count a.anchored_at a.key_id)

  pub seal_anchor : String → ℕ → String → Key → Anchor
  unfolding anchor_digest key_id_for
  seal_anchor head count at key =
      let a : Anchor = record {
        head_hash = head;
        record_count = count;
        anchored_at = at;
        key_id = key_id_for (public_key key);
        signature = "";
      } in
      record a { signature = sign key (anchor_digest a) }

  -- `append_approval` with a sink: the rows after, and the anchor that is written.
  pub append_approval :
      Key
      → ApprovalRecord Evidence
      → String
      → List (SealedApproval Evidence)
      → List (SealedApproval Evidence) × Anchor
  unfolding append_row seal_anchor
  append_approval key fields at rows = (
    append_row key fields rows,
    seal_anchor (record_hash (record fields { prev_hash = head_hash_of (last_row rows) }))
        (length rows + 1) at key,
  )

  pub data AnchorVerdict : Type 0 where
    no_anchor matches_anchor forged_anchor : AnchorVerdict
    truncated : ℕ → ℕ → AnchorVerdict
    rewritten : ℕ → AnchorVerdict

  abbrev pub anchor_ok : AnchorVerdict → Bool
  anchor_ok no_anchor = true
  anchor_ok matches_anchor = true
  anchor_ok _ = false

  abbrev pub hash_at : ℕ → List (SealedApproval Evidence) → Option String
  hash_at zero rows = none
  hash_at (suc n) rows = elim (get_elem? rows n) [ none ↦ none | some row ↦ some row.hash ]

  abbrev pub compare_head : Anchor → Option String → AnchorVerdict
  compare_head a none = matches_anchor
  compare_head a (some hash) =
      if str_eq hash a.head_hash then matches_anchor else rewritten a.record_count

  pub check_against_anchor : Keys → List (SealedApproval Evidence) → Option Anchor → AnchorVerdict
  unfolding anchor_digest
  check_against_anchor keys rows none = no_anchor
  check_against_anchor keys rows (some a) = elim (known (lookup a.key_id keys)) [
    | none ↦ forged_anchor
    | some public ↦
        if not (verify public (anchor_digest a) a.signature)
        then forged_anchor
        else if ltb (length rows) a.record_count
        then truncated (length rows) a.record_count
        else compare_head a (hash_at a.record_count rows)
  ]
