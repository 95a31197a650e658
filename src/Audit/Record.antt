-- ===== src/Audit/Record.antt =====
-- The data of apps/api/app/audit/ledger.py and anchor.py, and the libraries they call. `E` stands
-- for the evidence, a JSON object.
use zero_node.Prelude.{ℕ, String, Bool, Option}

pub record ApprovalRecord (E : Type 0) : Type 0 where
  pub thread_id : String
  pub decision : String
  pub feedback : String
  pub actor : String
  pub actor_role : String
  pub evidence : E
  pub created_at : String
  pub prev_hash : String

-- A row of the ledger has the same fields as the sealed record that was inserted.
pub record SealedApproval (E : Type 0) : Type 0 where
  pub entry : ApprovalRecord E
  pub hash : String
  pub signature : String
  pub key_id : String

-- The messages of `ChainReport.reason`, with what each is formatted from.
pub data Reason : Type 0 where
  intact : Reason
  predecessor : ℕ → String → String → Reason
  contents : ℕ → Reason
  unknown_key : ℕ → String → Reason
  bad_signature : ℕ → Reason

pub record ChainReport : Type 0 where
  pub valid : Bool
  pub checked : ℕ
  pub broken_at : Option ℕ
  pub reason : Reason

pub record Anchor : Type 0 where
  pub head_hash : String
  pub record_count : ℕ
  pub anchored_at : String
  pub key_id : String
  pub signature : String

-- `json.dumps`, SHA-256 and Ed25519 (with their base64 coding). A failed decoding is a `verify` that
-- answers false, as the `except` of `verify_signature` has it.
pub record Crypto : Type 1 where
  pub Evidence : Type 0
  pub Bytes : Type 0
  pub Key : Type 0
  pub dumps_record : ApprovalRecord Evidence → Bytes
  pub dumps_anchor : String → ℕ → String → String → Bytes
  pub encode : String → Bytes
  pub sha256_hex : Bytes → String
  pub public_key : Key → String
  pub sign : Key → String → String
  pub verify : String → String → String → Bool
