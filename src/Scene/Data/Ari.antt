-- ===== src/Scene/Data/Ari.antt =====
-- The walkthrough `ari` of kb-src/scenes-data.js, as it is registered there.
use certadillo.Prelude.{[], ◌∷◌, some, none}
use certadillo.Prelude.Int.{pos, negsuc}
use certadillo.Scene.Def.{Scene, Model, Kind, Effect, happy, worried, rolled, move, step}

abbrev pub ari : Scene
ari = record {
  id = "ari";
  title = "dns-01, wildcards and a renewal campaign (ARI)";
  dilly = some "ra";
  chain_at = some "db";
  chain_offset = some (pos 120, pos 20);
  camera = some (record { theta = pos 30; phi = 110; radius = 2100 });
  platform_radius = none;
  actors =
      record {
        id = "operator";
        kind = Model.person;
        label = "PKI operator";
        sub = some "runs the campaign";
        x = negsuc 159;
        z = pos 700;
        anchor_y = none;
        label_y = none;
        color = none;
      }
      ∷ record {
        id = "client";
        kind = Model.laptop;
        label = "ACME client";
        sub = some "cert-manager, lego, certbot";
        x = negsuc 699;
        z = pos 220;
        anchor_y = some 80;
        label_y = none;
        color = none;
      }
      ∷ record {
        id = "dnsint";
        kind = Model.globe;
        label = "Internal DNS";
        sub = some "bank.internal view";
        x = negsuc 619;
        z = negsuc 379;
        anchor_y = some 90;
        label_y = none;
        color = none;
      }
      ∷ record {
        id = "dnspub";
        kind = Model.cloud;
        label = "Public DNS";
        sub = some "never asked for .internal";
        x = negsuc 219;
        z = negsuc 699;
        anchor_y = some 90;
        label_y = some 190;
        color = none;
      }
      ∷ record {
        id = "acme";
        kind = Model.gateway;
        label = "Certadillo ACME";
        sub = some "/acme/*";
        x = negsuc 79;
        z = pos 40;
        anchor_y = some 150;
        label_y = none;
        color = none;
      }
      ∷ record {
        id = "ra";
        kind = Model.shield;
        label = "RA + policy";
        sub = some "tls-wildcard profile";
        x = pos 340;
        z = negsuc 399;
        anchor_y = some 120;
        label_y = none;
        color = none;
      }
      ∷ record {
        id = "ca";
        kind = Model.ca;
        label = "Issuing CA";
        sub = some "issuing-ca-1";
        x = pos 700;
        z = negsuc 79;
        anchor_y = some 160;
        label_y = some 300;
        color = none;
      }
      ∷ record {
        id = "db";
        kind = Model.db;
        label = "Inventory + audit";
        sub = some "campaign state";
        x = pos 240;
        z = pos 560;
        anchor_y = some 110;
        label_y = none;
        color = none;
      }
      ∷ record {
        id = "alerts";
        kind = Model.bell;
        label = "Alerting";
        sub = some "routed to the owning team";
        x = pos 680;
        z = pos 420;
        anchor_y = some 100;
        label_y = some 200;
        color = none;
      }
      ∷ [];
  steps =
      (step "Order" "Order a wildcard"
        "The app portal-edge is onboarded with the tls-wildcard profile and the scope *.portal.bank.internal. Its ACME client orders *.edge.portal.bank.internal. Any other profile would refuse the wildcard at newOrder, before a challenge exists."
        "POST /acme/new-order\npayload: {\"identifiers\":[\n  {\"type\":\"dns\",\"value\":\"*.edge.portal.bank.internal\"},\n  {\"type\":\"dns\",\"value\":\"edge.portal.bank.internal\"}]}\n\n201 Created\n{\"status\":\"pending\",\"authorizations\":[\".../authz/21\",\".../authz/22\"], ...}"
        (record (move "client" "acme" "POST /new-order") { sub = some "*.edge.portal" }
          ∷ record (move "acme" "ra" "scope + allow_wildcard") {
            effect = some Effect.check;
            dilly = some happy;
          }
          ∷ record (move "acme" "client" "order: pending") { kind = some Kind.response }
          ∷ []))
      ∷ (step "Challenge" "A wildcard gets dns-01 only"
          "RFC 8555 lets a wildcard be proven only through DNS, so its authorization offers dns-01 alone. The authorization names the base domain and carries wildcard: true. The plain name gets both http-01 and dns-01."
          "POST /acme/authz/21   (POST-as-GET)\n\n{\"status\":\"pending\",\n \"identifier\":{\"type\":\"dns\",\"value\":\"edge.portal.bank.internal\"},\n \"wildcard\":true,\n \"challenges\":[{\"type\":\"dns-01\",\n   \"url\":\".../acme/chall/21/dns-01\",\n   \"token\":\"Xk8tZq3R0vE2aHn7YcLw5pUdGf4sJm1bQy9oTi6rVxE\"}]}"
          ((move "client" "acme" "POST /authz/21")
            ∷ record (move "acme" "client" "dns-01 token") { kind = some Kind.response }
            ∷ []))
      ∷ (step "Challenge" "Publish the TXT record"
          "The client writes base64url(SHA-256(token.thumbprint)) at _acme-challenge. Many teams CNAME that name into a small zone their automation may write; Certadillo follows the CNAME."
          "_acme-challenge.edge.portal.bank.internal. 60 IN TXT \"qZ0m4Wv1cN8yR2kP6tB3xH9sJ7eL5aD0fU2gQ8iO4rE\"\n\n; or delegated:\n_acme-challenge.edge.portal.bank.internal. CNAME edge.acme-delegate.portal.bank.internal."
          (record (move "client" "dnsint" "TXT via DNS API") { kind = some Kind.secret } ∷ []))
      ∷ (step "Challenge" "Validate through the internal view"
          "CERTADILLO_ACME_DNS_VIEWS maps zones to resolvers. portal.bank.internal is answered by the internal resolvers; the public resolvers are never asked about it, and would not know the zone anyway. The longest matching zone wins, and the answer names the view that answered."
          "CERTADILLO_ACME_DNS_VIEWS=\"bank.internal=10.1.0.53,10.2.0.53;portal.bank.internal=10.9.0.53\"\n\ndig @10.9.0.53 TXT _acme-challenge.edge.portal.bank.internal\n-> \"qZ0m4Wv1cN8yR2kP6tB3xH9sJ7eL5aD0fU2gQ8iO4rE\"   (matches)\n\n{\"type\":\"dns-01\",\"status\":\"valid\",\"validated\":\"2026-09-24T04:10:13Z\"}"
          ((move "client" "acme" "POST /chall/21/dns-01")
            ∷ (move "acme" "dnsint" "TXT _acme-challenge.edge...")
            ∷ record (move "dnsint" "acme" "digest matches") {
              kind = some Kind.response;
              effect = some Effect.check;
            }
            ∷ []))
      ∷ (step "Issue" "Finalize and issue"
          "The CSR carries both names. Policy checks the key, the scope and the profile, and the CA signs. The client now holds a 30-day wildcard."
          "POST /acme/order/9/finalize   {\"csr\": \"MIIBTzCB9wIBADAmMSQwIgYDVQQDDBsqLmVkZ2UucG9y...\"}\n\nSAN: *.edge.portal.bank.internal, edge.portal.bank.internal\nprofile tls-wildcard · 30 days · P-256"
          ((move "client" "acme" "POST /finalize")
            ∷ record (move "acme" "ra" "policy") { effect = some Effect.check }
            ∷ record (move "ra" "ca" "sign") { effect = some Effect.sign }
            ∷ record (move "ca" "db" "store + audit") {
              kind = some Kind.response;
              effect = some Effect.store;
            }
            ∷ []))
      ∷ (step "ARI" "The client asks when to renew"
          "The directory advertises renewalInfo (RFC 9773). The client asks with the certificate's CertID, built from the issuer's key identifier and the serial. Normally the window sits at 50 to 60 percent of the lifetime, before the platform's own expiry warning, and the client picks a random moment inside it."
          "GET /acme/renewal-info/kBXWiC6ES11xBWj1ZleSver1klM.WhBfketKLIVSfmI5ps5e1Ht5sE4\n\n200 OK\nRetry-After: 21600\n{\"suggestedWindow\":{\"start\":\"2026-10-09T04:10:13Z\",\n                    \"end\":  \"2026-10-12T04:10:13Z\"}}"
          ((move "client" "acme" "GET /renewal-info/<CertID>")
            ∷ record (move "acme" "client" "window: day 15 to 18") { kind = some Kind.response }
            ∷ []))
      ∷ (step "Campaign" "Something is wrong with a batch"
          "A build host that held keys for these certificates is suspected of compromise. The operator starts a renewal campaign for the affected serials instead of revoking straight away: revoking first would take the services down."
          "POST /api/v1/renewal-campaigns\n{\"name\": \"rotate portal-edge\",\n \"reason\": \"suspected key exposure on build host bh-12\",\n \"criteria\": {\"app_ids\": [4]},\n \"renew_within_hours\": 24,\n \"explanation_url\": \"https://status.bank.example/pki/2026-09\"}\n\n201 {\"id\": 3, \"counts\": {\"total\": 14, \"replaced\": 0, \"remaining\": 14}}"
          ((move "operator" "acme" "POST /renewal-campaigns")
            ∷ record (move "acme" "db" "advice for 14 certificates") {
              kind = some Kind.response;
              effect = some Effect.store;
              dilly = some worried;
            }
            ∷ []))
      ∷ (step "Campaign" "The window moves forward"
          "The next time each client checks, the window is now: within 24 hours, with a link explaining why, and a one-hour Retry-After. Clients spread their renewals across the window, so the CA is not hit by all of them at once. For a true emergency, immediate: true puts the window in the past and every client renews on its next check."
          "GET /acme/renewal-info/kBXWiC6ES11xBWj1ZleSver1klM.WhBf...\n\n200 OK\nRetry-After: 3600\n{\"suggestedWindow\":{\"start\":\"2026-09-24T04:15:00Z\",\n                    \"end\":  \"2026-09-25T04:15:00Z\"},\n \"explanationURL\":\"https://status.bank.example/pki/2026-09\"}"
          ((move "client" "acme" "GET /renewal-info")
            ∷ record (move "acme" "client" "renew within 24h") { kind = some Kind.response }
            ∷ []))
      ∷ (step "Campaign" "Renew with a new key"
          "The client orders again with replaces set to the old CertID, proves the names again and sends a CSR with a new key; reusing the old key is refused. The old certificate is marked superseded. Clients that do not send replaces (certbot 5.8 checks ARI but does not) are matched by app and names instead."
          "POST /acme/new-order\npayload: {\"identifiers\":[...],\n          \"replaces\":\"kBXWiC6ES11xBWj1ZleSver1klM.WhBfketKLIVSfmI5ps5e1Ht5sE4\"}\n\naudit: certificate.renew {serial: 5a1f..., new_serial: 7c02...}"
          ((move "client" "acme" "new-order + replaces")
            ∷ record (move "acme" "ra" "new key required") { effect = some Effect.check }
            ∷ record (move "ra" "ca" "sign") { effect = some Effect.sign }
            ∷ record (move "ca" "db" "old: superseded") {
              kind = some Kind.response;
              effect = some Effect.store;
              dilly = some happy;
            }
            ∷ []))
      ∷ (step "Campaign" "Revoke what has been replaced"
          "Revoking a certificate that has a successor breaks nothing, so this needs no second person. The CRL is re-signed at once and OCSP answers revoked for the old serials."
          "POST /api/v1/renewal-campaigns/3/revoke-replaced\n{\"change_ref\": \"CHG0042117\"}\n\n200 {\"revoked\": 13}"
          ((move "operator" "acme" "revoke-replaced")
            ∷ record (move "acme" "ca" "revoke 13 + new CRL") {
              kind = some Kind.secret;
              effect = some Effect.sign;
            }
            ∷ record (move "ca" "db" "audit") {
              kind = some Kind.response;
              effect = some Effect.store;
            }
            ∷ []))
      ∷ (step "Campaign" "The deadline passes with one left"
          "One client never renewed. RenewalCampaignOverdue fires as critical and goes to the team that owns the app, with the certificate named. Revoking the rest is the hard cutoff that can cause an outage, so it goes to an approver."
          "alert RenewalCampaignOverdue (critical)\n  renewal campaign 'rotate portal-edge' passed its deadline with 1 certificate(s)\n  not replaced (teams: web)\n\nPOST /api/v1/renewal-campaigns/3/revoke-remaining  {\"change_ref\":\"CHG0042117\"}\n202 {\"status\":\"pending_approval\",\"approval_id\":61}"
          (record (move "db" "alerts" "RenewalCampaignOverdue") {
            kind = some Kind.reject;
            dilly = some rolled;
          }
            ∷ (move "operator" "acme" "revoke-remaining")
            ∷ record (move "acme" "db" "approval #61: second person") {
              kind = some Kind.response;
              effect = some Effect.store;
            }
            ∷ []))
      ∷ [];
}
