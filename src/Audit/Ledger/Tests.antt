-- ===== src/Audit/Ledger/Tests.antt =====
-- A small ledger with stand-ins for the libraries: apps/api/app/audit/ledger.py and anchor.py.
use Prim.Native.String.{◌++◌ as str_append}
use zero_node.Prelude.{
  ℕ, String, ◌≡◌, refl, true, ◌↔◌, List, [], ◌∷◌, str_eq, eq_iff, Bool-cases, inl, inr, arith,
}
use zero_node.Audit.Record.{ApprovalRecord, SealedApproval, Anchor, Crypto}
use zero_node.Audit.Ledger.{
  genesis_hash, key_id_for, record_hash, append_row, verify_chain, append_approval,
}
use zero_node.Audit.Ledger.Chain.{IsChain, verify_chain_iff}
use zero_node.Audit.Ledger.Append.{SignsCorrectly, Extends}
use zero_node.Audit.Ledger.Tamper.{take, entries, hash_commits}

-- Texts stand for the bytes, a hash is its text with a mark, and a signature names its key.
abbrev toy : Crypto
toy = record {
  Evidence = ℕ;
  Bytes = String;
  Key = String;
  dumps_record = λ r. str_append r.prev_hash r.decision;
  dumps_anchor = λ head count at key_id. str_append head at;
  encode = λ s. s;
  sha256_hex = λ s. str_append "#" s;
  public_key = λ k. k;
  sign = λ key digest. str_append key digest;
  verify = λ public digest signature. str_eq signature (str_append public digest);
}

abbrev approval : String → ApprovalRecord ℕ
approval decision = record {
  thread_id = "t1";
  decision = decision;
  feedback = "";
  actor = "ada";
  actor_role = "approver";
  evidence = 0;
  created_at = "now";
  prev_hash = "";
}

abbrev trusted : List (String × String)
trusted = ("#alpha", "alpha") ∷ []

abbrev rotated : List (String × String)
rotated = ("#alpha", "alpha") ∷ ("#beta", "beta") ∷ []

abbrev one_row : List (SealedApproval ℕ)
one_row = append_row toy "alpha" (approval "approve") []

verify_chain_iff_example :
    ((verify_chain toy trusted one_row).valid ≡ true) ↔ IsChain toy trusted genesis_hash one_row
verify_chain_iff_example = verify_chain_iff toy trusted one_row

abbrev two_rows : List (SealedApproval ℕ)
two_rows = append_row toy "alpha" (approval "reject") one_row

toy-SignsCorrectly : SignsCorrectly toy "alpha"
toy-SignsCorrectly digest =
    ground (arith, eq_iff (str_append "alpha" digest) (str_append "alpha" digest))

rotated-Extends : Extends toy trusted rotated
rotated-Extends key_id public e = elim (Bool-cases (str_eq "#alpha" key_id)) [
  | inl hit ↦ ground arith
  | inr miss ↦ absurd (ground arith)
]

abbrev first_hash : String
first_hash = str_append "#" (str_append genesis_hash "approve")

hash_commits_example : entries toy (take 1 two_rows) ≡ entries toy (take 1 one_row)
unfolding verify_chain append_row key_id_for record_hash
hash_commits_example =
    hash_commits toy trusted rotated 0 two_rows one_row first_hash refl refl ((λ e. refl), tt) refl
      refl

abbrev anchored : List (SealedApproval ℕ) × Anchor
anchored = append_approval toy "alpha" (approval "approve") "noon" []
