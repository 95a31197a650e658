-- ===== src/Auth/Access/Tests.antt =====
-- An approver with a session cookie that writes.
use zero_node.Prelude.{◌≡◌, ◌↔◌, ◌&&◌, if◌then◌else◌, refl, inl, true, Option, none, some, []}
use zero_node.Prelude.Text.{Text, codes, text_eq}
use zero_node.Auth.Access.{
  Role, Principal, user_kind, Claims, granted, Request, AppState, decode_token, bearer, check_csrf,
  is_unsafe, current_principal, authorise, require_role, can_approve,
}
use zero_node.Auth.Access.Admits.{Admitted, require_role-Admitted, can_approve_iff}

-- One token is valid.
abbrev decode : Text → Text → Option Claims
decode token secret =
    if text_eq token (codes "t1") && text_eq secret (codes "s")
    then some (record {
      role = some (codes "approver");
      sub = some (codes "ann");
      kind = none;
      mfa = some true;
      csrf = some (codes "c9");
    })
    else none

abbrev ann : Principal
ann = record {
  subject = codes "ann";
  role = Role.approver;
  kind = user_kind;
  mfa = true;
  csrf = codes "c9";
}

abbrev posting : Request
posting = record {
  authorization = [];
  session_cookie = codes "t1";
  csrf_header = codes "c9";
  method = codes "post";
}

abbrev running : AppState
running = record {
  auth_enabled = true;
  service_token = codes "machine";
  jwt_secret = codes "s";
  mfa_required = true;
}

require_role-Admitted_example : Admitted decode Role.approver true true running posting ann
unfolding require_role current_principal authorise decode_token bearer check_csrf is_unsafe
require_role-Admitted_example =
    require_role-Admitted decode Role.approver true true running posting ann refl refl

can_approve_iff_example :
    (can_approve true ann ≡ true) ↔ (authorise Role.approver true true true ann ≡ granted ann)
can_approve_iff_example = can_approve_iff true ann (inl refl)
