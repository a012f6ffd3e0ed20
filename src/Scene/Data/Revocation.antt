-- ===== src/Scene/Data/Revocation.antt =====
-- The walkthrough `revocation` of kb-src/scenes-data.js, as it is registered there.
use certadillo.Prelude.{[], ◌∷◌, some, none}
use certadillo.Prelude.Int.{pos, negsuc}
use certadillo.Scene.Def.{Scene, Model, Kind, Effect, happy, worried, move, step}

abbrev pub revocation : Scene
revocation = record {
  id = "revocation";
  title = "Revocation: OCSP and CRL";
  dilly = some "api";
  chain_at = some "db";
  chain_offset = some (pos 120, pos 30);
  camera = some (record { theta = negsuc 19; phi = 110; radius = 2100 });
  platform_radius = none;
  actors =
      record {
        id = "rp";
        kind = Model.globe;
        label = "Relying party";
        sub = some "browser or service";
        x = negsuc 699;
        z = pos 140;
        anchor_y = some 90;
        label_y = none;
        color = none;
      }
      ∷ record {
        id = "server";
        kind = Model.server;
        label = "api.cards";
        sub = some "presents its certificate";
        x = negsuc 499;
        z = negsuc 439;
        anchor_y = some 110;
        label_y = none;
        color = none;
      }
      ∷ record {
        id = "cdn";
        kind = Model.cloud;
        label = "CRL distribution";
        sub = some "/pki/crl/issuing-ca-1.crl";
        x = negsuc 79;
        z = negsuc 699;
        anchor_y = some 90;
        label_y = some 190;
        color = none;
      }
      ∷ record {
        id = "ocsp";
        kind = Model.terminal;
        label = "OCSP responder";
        sub = some "delegated cert, 30 days";
        x = pos 260;
        z = negsuc 519;
        anchor_y = some 90;
        label_y = some 190;
        color = none;
      }
      ∷ record {
        id = "operator";
        kind = Model.person;
        label = "Operator";
        sub = some "revokes";
        x = negsuc 199;
        z = pos 660;
        anchor_y = none;
        label_y = none;
        color = none;
      }
      ∷ record {
        id = "api";
        kind = Model.gateway;
        label = "Certadillo API";
        sub = none;
        x = negsuc 59;
        z = pos 120;
        anchor_y = some 150;
        label_y = none;
        color = none;
      }
      ∷ record {
        id = "ca";
        kind = Model.ca;
        label = "Issuing CA";
        sub = none;
        x = pos 660;
        z = negsuc 199;
        anchor_y = some 160;
        label_y = some 300;
        color = none;
      }
      ∷ record {
        id = "hsm";
        kind = Model.hsm;
        label = "HSM";
        sub = none;
        x = pos 720;
        z = pos 160;
        anchor_y = some 60;
        label_y = some 150;
        color = none;
      }
      ∷ record {
        id = "db";
        kind = Model.db;
        label = "Certificate status";
        sub = some "active · revoked";
        x = pos 340;
        z = pos 520;
        anchor_y = some 110;
        label_y = none;
        color = none;
      }
      ∷ record {
        id = "prom";
        kind = Model.chart;
        label = "Prometheus";
        sub = some "CRLStale";
        x = pos 660;
        z = pos 500;
        anchor_y = some 80;
        label_y = some 190;
        color = none;
      }
      ∷ [];
  steps =
      (step "Normal" "The certificate says where to check"
        "During the TLS handshake the server presents its certificate. Two extensions tell the relying party where revocation lives: AIA points at the OCSP responder, CDP at the CRL."
        "Authority Information Access:\n    OCSP - URI:https://pki.bank.internal/pki/ocsp\n    CA Issuers - URI:https://pki.bank.internal/pki/ca/issuing-ca-1.crt\nX509v3 CRL Distribution Points:\n    URI:https://pki.bank.internal/pki/crl/issuing-ca-1.crl"
        (record (move "server" "rp" "certificate (AIA, CDP)") { kind = some Kind.response } ∷ []))
      ∷ (step "Normal" "OCSP says good"
          "The relying party asks about one serial. The responder looks up live status and signs a short answer (valid 4 hours) with its delegated responder key, so the CA key is not used for every query."
          "$ openssl ocsp -issuer issuing.pem -cert server.crt -url https://pki.bank.internal/pki/ocsp -CAfile root.pem\nResponse verify OK\nserver.crt: good\n\tThis Update: Sep 23 22:31:39 2026 GMT\n\tNext Update: Sep 24 02:31:39 2026 GMT"
          ((move "rp" "ocsp" "OCSPRequest(serial 7B4C...)")
            ∷ (move "ocsp" "db" "status?")
            ∷ record (move "db" "ocsp" "active") { kind = some Kind.response }
            ∷ record (move "ocsp" "rp" "good (signed)") {
              kind = some Kind.response;
              effect = some Effect.check;
            }
            ∷ []))
      ∷ (step "Incident" "Key compromise: revoke"
          "The server's key leaked. The operator revokes with reason key_compromise, which needs no change ticket even in production. The status changes in the same transaction as the audit event."
          "POST /api/v1/certificates/7/revoke\n{\"reason\": \"key_compromise\"}\n\n200 {\"status\": \"revoked\", \"revocation_reason\": \"key_compromise\"}"
          (record (move "operator" "api" "POST /certificates/7/revoke") {
            kind = some Kind.reject;
            dilly = some worried;
          }
            ∷ record (move "api" "db" "status = revoked + audit") {
              kind = some Kind.reject;
              effect = some Effect.store;
            }
            ∷ []))
      ∷ (step "Incident" "Publish a new CRL right away"
          "In the same request the issuing CA signs a new CRL with the next CRL number. The HSM signs it, and the CRL is published for download. Anonymous downloads serve this stored copy; they never trigger signing."
          "Certificate Revocation List (CRL):\n    Issuer: CN=Example Bank Issuing CA issuing-ca-1\n    Last Update: Sep 23 22:40:02 2026 GMT\n    Next Update: Sep 24 22:40:02 2026 GMT\n    X509v3 CRL Number: 5\nRevoked Certificates:\n    Serial Number: 7B4C294DAC830D452407ACFFE8492C99A84D2BD6\n        X509v3 CRL Reason Code: Key Compromise"
          ((move "api" "ca" "sign CRL #5")
            ∷ record (move "ca" "hsm" "sign") { kind = some Kind.secret; effect = some Effect.hsm }
            ∷ record (move "ca" "cdn" "CRL #5") { kind = some Kind.response }
            ∷ []))
      ∷ (step "Incident" "OCSP now says revoked"
          "OCSP answers from live state, so the very next query returns revoked with the reason and time. Clients that hard-fail on revoked certificates stop trusting the server immediately."
          "server.crt: revoked\n\tThis Update: Sep 23 22:40:05 2026 GMT\n\tReason: keyCompromise\n\tRevocation Time: Sep 23 22:40:02 2026 GMT"
          ((move "rp" "ocsp" "OCSPRequest")
            ∷ (move "ocsp" "db" "status?")
            ∷ record (move "db" "ocsp" "revoked") { kind = some Kind.reject }
            ∷ record (move "ocsp" "rp" "revoked (keyCompromise)") {
              kind = some Kind.reject;
              effect = some Effect.reject;
            }
            ∷ []))
      ∷ (step "Incident" "CRL clients see it too"
          "Clients that use CRLs (many appliances, Windows chains) download the list and find the serial."
          "GET /pki/crl/issuing-ca-1.crl   (Cache-Control: max-age=300)\n-> serial 7B4C... present, reason keyCompromise"
          ((move "rp" "cdn" "GET issuing-ca-1.crl")
            ∷ record (move "cdn" "rp" "serial listed") {
              kind = some Kind.reject;
              effect = some Effect.reject;
            }
            ∷ []))
      ∷ (step "Housekeeping" "Responder certificate rotation"
          "The OCSP responder certificate lives 30 days. Housekeeping has the CA sign a new one a week before expiry, so the responder never answers with an expired signer."
          "OCSP Responder issuing-ca-1\n  Extended Key Usage: OCSP Signing\n  OCSP No Check\n  Validity: 30 days, rotated at 7 days left"
          (record (move "ca" "hsm" "sign responder cert") {
            kind = some Kind.secret;
            effect = some Effect.hsm;
            dilly = some happy;
          }
            ∷ record (move "ca" "ocsp" "new responder cert") {
              kind = some Kind.response;
              effect = some Effect.sign;
            }
            ∷ []))
      ∷ (step "Housekeeping" "Freshness is watched"
          "CRLs are re-signed every 12 hours even without revocations. Prometheus scrapes certadillo_crl_last_generated_timestamp_seconds; if a CRL goes 24 hours without re-signing, CRLStale pages the PKI on-call before relying parties start failing."
          "alert: CRLStale\nexpr: time() - certadillo_crl_last_generated_timestamp_seconds{ca!=\"root-ca\"} > 24 * 3600\nlabels: {severity: critical}"
          ((move "prom" "api" "scrape /metrics")
            ∷ record (move "api" "prom" "crl_last_generated") {
              kind = some Kind.response;
              effect = some Effect.check;
            }
            ∷ []))
      ∷ [];
}
