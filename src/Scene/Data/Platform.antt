-- ===== src/Scene/Data/Platform.antt =====
-- The walkthrough `platform` of kb-src/scenes-data.js, as it is registered there.
use certadillo.Prelude.{[], ◌∷◌, some, none}
use certadillo.Prelude.Int.{pos, negsuc}
use certadillo.Scene.Def.{Scene, Model, Kind, Effect, happy, worried, rolled, move, step}

abbrev pub platform : Scene
platform = record {
  id = "platform";
  title = "Platform tour";
  dilly = some "ra";
  chain_at = some "db";
  chain_offset = some (pos 130, negsuc 19);
  camera = some (record { theta = pos 15; phi = 110; radius = 2200 });
  platform_radius = some 940;
  actors =
      record {
        id = "team";
        kind = Model.person;
        label = "App team";
        sub = some "cards";
        x = negsuc 739;
        z = pos 120;
        anchor_y = none;
        label_y = none;
        color = some 0x3f6f9f;
      }
      ∷ record {
        id = "approver";
        kind = Model.person;
        label = "Approver";
        sub = some "second person";
        x = negsuc 499;
        z = negsuc 519;
        anchor_y = none;
        label_y = none;
        color = some 0xb7791f;
      }
      ∷ record {
        id = "console";
        kind = Model.laptop;
        label = "Console / API";
        sub = some "onboarding";
        x = negsuc 419;
        z = pos 520;
        anchor_y = some 80;
        label_y = none;
        color = none;
      }
      ∷ record {
        id = "protocols";
        kind = Model.gateway;
        label = "Enrollment";
        sub = some "REST ACME EST SCEP SSH SPIFFE";
        x = negsuc 139;
        z = pos 20;
        anchor_y = some 150;
        label_y = none;
        color = none;
      }
      ∷ record {
        id = "ra";
        kind = Model.shield;
        label = "RA + policy";
        sub = none;
        x = pos 240;
        z = negsuc 199;
        anchor_y = some 120;
        label_y = none;
        color = none;
      }
      ∷ record {
        id = "ca";
        kind = Model.ca;
        label = "CA hierarchy";
        sub = some "root offline · issuing online";
        x = pos 560;
        z = negsuc 499;
        anchor_y = some 160;
        label_y = some 300;
        color = none;
      }
      ∷ record {
        id = "hsm";
        kind = Model.hsm;
        label = "HSM";
        sub = none;
        x = pos 780;
        z = negsuc 159;
        anchor_y = some 60;
        label_y = some 150;
        color = none;
      }
      ∷ record {
        id = "db";
        kind = Model.db;
        label = "Inventory + audit";
        sub = none;
        x = pos 460;
        z = pos 280;
        anchor_y = some 110;
        label_y = none;
        color = none;
      }
      ∷ record {
        id = "scanner";
        kind = Model.radar;
        label = "Discovery";
        sub = some "TLS scans · connectors";
        x = pos 120;
        z = pos 680;
        anchor_y = some 110;
        label_y = some 200;
        color = none;
      }
      ∷ record {
        id = "alerts";
        kind = Model.bell;
        label = "Alerting";
        sub = some "Slack · Jira · ServiceNow";
        x = pos 60;
        z = negsuc 719;
        anchor_y = some 100;
        label_y = some 200;
        color = none;
      }
      ∷ record {
        id = "prom";
        kind = Model.chart;
        label = "Prometheus + Grafana";
        sub = none;
        x = pos 780;
        z = pos 360;
        anchor_y = some 80;
        label_y = some 190;
        color = none;
      }
      ∷ [];
  steps =
      (step "Onboard" "Onboard a team and an app"
        "The cards team registers card-auth-api: environment prod, profile mtls-service, scope *.cards.bank.internal, classification pci. Nothing can be issued outside that scope later."
        "POST /api/v1/apps\n{\"team_id\": 1, \"name\": \"card-auth-api\", \"environment\": \"prod\",\n \"profile\": \"mtls-service\", \"allowed_domains\": [\"*.cards.bank.internal\"],\n \"data_classification\": \"pci\"}\n-> 201 {\"status\": \"pending_approval\", \"approval_id\": 12}"
        ((move "team" "console" "team + app + scope")
          ∷ record (move "console" "db" "app pending + audit") {
            kind = some Kind.response;
            effect = some Effect.store;
          }
          ∷ []))
      ∷ (step "Onboard" "A second person approves production"
          "Maker-checker: only the approver role decides, never the requester, and never with a key the requester minted."
          "POST /api/v1/approvals/12/approve   (approver key)\n{\"comment\": \"CHG0012345 approved at CAB\"}\n-> app card-auth-api: active"
          ((move "console" "approver" "approval #12")
            ∷ record (move "approver" "console" "approved") {
              kind = some Kind.response;
              effect = some Effect.check;
            }
            ∷ record (move "console" "db" "audit: approval.approved") {
              kind = some Kind.response;
              effect = some Effect.store;
            }
            ∷ []))
      ∷ (step "Onboard" "Credentials for the way it enrolls"
          "The team gets exactly one credential type per client: an API key for REST, EST and SSH, a single-use EAB for ACME, or one-time challenges for SCEP devices. Each is shown once."
          "POST /api/v1/apps/3/credentials   -> {\"api_key\": \"cdl_...\"}\nPOST /api/v1/apps/3/acme-eab      -> {\"kid\": \"eab_...\", \"hmac_key\": \"...\"}\nPOST /api/v1/apps/7/scep-challenge -> {\"challenge\": \"90b0...\"}"
          (record (move "console" "team" "API key · EAB · challenge") { kind = some Kind.secret }
            ∷ []))
      ∷ (step "Issue" "Every protocol meets one RA"
          "Whichever protocol the client speaks, the request lands in the same registration authority. The same policy, the same dual control, the same audit."
          "REST   POST /api/v1/certificates\nACME   POST /acme/order/{id}/finalize\nEST    POST /.well-known/est/simpleenroll\nSCEP   POST /scep?operation=PKIOperation\nSSH    POST /api/v1/ssh/certificates\n  -> Platform.request_certificate()"
          (record (move "team" "protocols" "CSR") { sub = some "any protocol" }
            ∷ record (move "protocols" "ra" "request_certificate()") {
              effect = some Effect.check;
              dilly = some happy;
            }
            ∷ []))
      ∷ (step "Issue" "Sign in the HSM, record everything"
          "The issuing CA key sits in the HSM as sensitive and non-extractable. The certificate, the audit event and the metrics update together."
          "C_Sign(CKM_ECDSA, SHA-384(tbsCertificate))\ncertificates: + auth.cards.bank.internal (mtls-service, 30d, app card-auth-api)\naudit_events: + certificate.issue (hash chained)"
          ((move "ra" "ca" "build certificate")
            ∷ record (move "ca" "hsm" "sign") { kind = some Kind.secret; effect = some Effect.hsm }
            ∷ record (move "ca" "db" "store + audit") {
              kind = some Kind.response;
              effect = some Effect.store;
            }
            ∷ record (move "protocols" "team" "certificate") { kind = some Kind.response }
            ∷ []))
      ∷ (step "Operate" "Discovery finds a stranger"
          "A scan of the payments subnet finds a certificate nobody onboarded, five days from expiry, on a load balancer. It enters the inventory as discovered and unowned."
          "POST /api/v1/discovery/scan {\"targets\": [\"10.20.0.0/28:443\"]}\n-> 10.20.0.14:443  legacy-gw.cards.bank.internal  expires in 5 days\n   findings: quantum_vulnerable"
          (record (move "scanner" "db" "10.20.0.14:443: unknown cert") {
            kind = some Kind.reject;
            effect = some Effect.store;
            dilly = some worried;
          }
            ∷ []))
      ∷ (step "Operate" "The alert reaches the owner"
          "Once the certificate is assigned to card-auth-api, CertificateExpiringSoon goes to the cards team webhook, opens a ServiceNow incident and a Jira issue, and Dilly rolls into a ball."
          "alert CertificateExpiringSoon  severity=critical\n  legacy-gw.cards.bank.internal at 10.20.0.14:443 expires in 4d 23h\n  team=cards  app=card-auth-api  environment=prod\n  runbook: docs/RUNBOOK.md#certificateexpiringsoon"
          (record (move "db" "alerts" "CertificateExpiringSoon") {
            kind = some Kind.reject;
            dilly = some rolled;
          }
            ∷ record (move "alerts" "team" "Slack + ServiceNow + Jira") {
              kind = some Kind.reject;
              effect = some Effect.reject;
            }
            ∷ []))
      ∷ (step "Operate" "Automation replaces it"
          "The team moves the load balancer to ACME. The next scan sees the new certificate at the same endpoint, retires the old one, and the alert sends its resolved notice."
          "certbot certonly --server https://pki.bank.internal/acme/directory ... -d legacy-gw.cards.bank.internal\nrescan 10.20.0.14:443 -> new certificate; old one superseded\nalert CertificateExpiringSoon: resolved"
          ((move "team" "protocols" "ACME order")
            ∷ record (move "protocols" "ra" "policy") { effect = some Effect.check }
            ∷ (move "ra" "ca" "sign")
            ∷ record (move "ca" "db" "store; old superseded") {
              kind = some Kind.response;
              effect = some Effect.store;
              dilly = some happy;
            }
            ∷ record (move "db" "alerts" "resolved") {
              kind = some Kind.response;
              effect = some Effect.check;
            }
            ∷ []))
      ∷ (step "Prove" "Metrics, dashboards and reports"
          "Prometheus scrapes expiry and lifetime gauges per certificate, labelled by team. Grafana shows the estate; auditors pull the PCI DSS 4.2.1.1 inventory and the CycloneDX CBOM, and the audit chain verifies end to end."
          "GET /metrics                     certadillo_certificate_expiry_timestamp_seconds{team=\"cards\",...}\nGET /api/v1/reports/pci-inventory?format=csv\nGET /api/v1/reports/cbom          CycloneDX 1.6\nGET /api/v1/audit/verify          {\"valid\": true, \"events\": 51}"
          ((move "prom" "db" "scrape /metrics")
            ∷ record (move "db" "prom" "gauges by team") {
              kind = some Kind.response;
              effect = some Effect.check;
            }
            ∷ []))
      ∷ [];
}
