-- ===== src/Ingress/Alertmanager/Tests.antt =====
-- An alert whose incident label is no good name for a thread.
use zero_node.Prelude.{refl, false, [], ◌∷◌}
use zero_node.Prelude.Text.{Text, codes}
use zero_node.Ingress.Alertmanager.{
  AlertmanagerWebhookBody, Severity, NormalizedIncidentTrigger, sanitize_thread_id, severity_of,
  site_of, description_of, normalize_alertmanager,
}
use zero_node.Ingress.Alertmanager.ThreadId.{IsThreadId, normalize-IsThreadId}

abbrev digest : Text → Text
digest s = codes "e3b0c44298fc1c14"

abbrev body : AlertmanagerWebhookBody
body = record {
  status = codes "firing";
  group_labels = [];
  common_labels = (codes "severity", codes "P1") ∷ [];
  common_annotations = [];
  alerts =
      record {
        status = codes "firing";
        labels = (codes "incident", codes "--INC 7/a ") ∷ (codes "job", codes "edge") ∷ [];
        annotations = (codes "summary", codes "Link down") ∷ [];
        fingerprint = codes "f1";
      }
      ∷ [];
}

abbrev opened : NormalizedIncidentTrigger
opened = record {
  thread_id = codes "INC-7-a";
  description = codes "Link down\nLabels: job=edge";
  severity = Severity.critical;
  site = codes "lab";
  external_id = codes "f1";
  ignored = false;
}

normalize-IsThreadId_example : IsThreadId (codes "INC-7-a")
unfolding normalize_alertmanager sanitize_thread_id severity_of site_of description_of
normalize-IsThreadId_example =
    normalize-IsThreadId digest (λ l. codes "aa") body (codes "AM") (codes "lab") opened
      (record { alnum = λ s. refl; some_digit = λ s. refl }) refl
