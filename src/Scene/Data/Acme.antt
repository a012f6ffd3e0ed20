-- ===== src/Scene/Data/Acme.antt =====
-- The walkthrough `acme` of kb-src/scenes-data.js, as it is registered there.
use certadillo.Prelude.{[], ◌∷◌, some, none}
use certadillo.Prelude.Int.{pos, negsuc}
use certadillo.Scene.Def.{Scene, Model, Kind, Effect, happy, worried, move, step}

abbrev pub acme : Scene
acme = record {
  id = "acme";
  title = "ACME with certbot (http-01)";
  dilly = some "ra";
  chain_at = some "db";
  chain_offset = some (pos 120, pos 20);
  camera = some (record { theta = pos 35; phi = 110; radius = 2050 });
  platform_radius = none;
  actors =
      record {
        id = "operator";
        kind = Model.person;
        label = "PKI operator";
        sub = some "onboarding";
        x = negsuc 219;
        z = pos 680;
        anchor_y = none;
        label_y = none;
        color = none;
      }
      ∷ record {
        id = "certbot";
        kind = Model.laptop;
        label = "certbot";
        sub = some "on www.portal";
        x = negsuc 679;
        z = pos 240;
        anchor_y = some 80;
        label_y = none;
        color = none;
      }
      ∷ record {
        id = "web";
        kind = Model.server;
        label = "Web server :80";
        sub = some "serves the token";
        x = negsuc 559;
        z = negsuc 379;
        anchor_y = some 110;
        label_y = none;
        color = none;
      }
      ∷ record {
        id = "acme";
        kind = Model.gateway;
        label = "Certadillo ACME";
        sub = some "/acme/*";
        x = negsuc 59;
        z = pos 40;
        anchor_y = some 150;
        label_y = none;
        color = none;
      }
      ∷ record {
        id = "ra";
        kind = Model.shield;
        label = "RA + policy";
        sub = some "scope · keys · validity";
        x = pos 340;
        z = negsuc 419;
        anchor_y = some 120;
        label_y = none;
        color = none;
      }
      ∷ record {
        id = "ca";
        kind = Model.ca;
        label = "Issuing CA";
        sub = some "issuing-ca-1 · P-384";
        x = pos 690;
        z = negsuc 79;
        anchor_y = some 160;
        label_y = some 300;
        color = none;
      }
      ∷ record {
        id = "hsm";
        kind = Model.hsm;
        label = "HSM";
        sub = some "PKCS#11 · non-extractable";
        x = pos 640;
        z = pos 340;
        anchor_y = some 60;
        label_y = some 150;
        color = none;
      }
      ∷ record {
        id = "db";
        kind = Model.db;
        label = "Inventory + audit";
        sub = some "hash-chained events";
        x = pos 220;
        z = pos 560;
        anchor_y = some 110;
        label_y = none;
        color = none;
      }
      ∷ [];
  steps =
      (step "Onboarding" "Mint an EAB credential for the app"
        "Before any ACME traffic, an operator mints a single-use External Account Binding credential for the onboarded app web-portal. It ties the future ACME account to the app, so every order inherits the app's approved names and profile."
        "POST /api/v1/apps/3/acme-eab\nX-API-Key: <operator key>\n\n201 Created\n{\n  \"kid\": \"eab_ea1ae05c6517f939\",\n  \"hmac_key\": \"oh7sIaV_ZUzExOL24qDutXJfRwAHF4OL1X-ZjiXUWO8\"\n}"
        ((move "operator" "acme" "POST /apps/3/acme-eab")
          ∷ record (move "acme" "db" "audit: acme.eab.create") {
            kind = some Kind.response;
            effect = some Effect.store;
          }
          ∷ record (move "acme" "operator" "kid + hmac_key") { kind = some Kind.secret }
          ∷ []))
      ∷ (step "Discovery" "Read the directory"
          "certbot starts from one URL. The directory lists every endpoint and says an external account is required."
          "GET /acme/directory\n\n{\n  \"newNonce\":   \"https://pki.bank.internal/acme/new-nonce\",\n  \"newAccount\": \"https://pki.bank.internal/acme/new-account\",\n  \"newOrder\":   \"https://pki.bank.internal/acme/new-order\",\n  \"revokeCert\": \"https://pki.bank.internal/acme/revoke-cert\",\n  \"meta\": { \"externalAccountRequired\": true }\n}"
          ((move "certbot" "acme" "GET /acme/directory")
            ∷ record (move "acme" "certbot" "endpoints") { kind = some Kind.response }
            ∷ []))
      ∷ (step "Discovery" "Get a replay nonce"
          "Every signed ACME request carries a fresh nonce. Certadillo marks a nonce spent before it processes the request, so a captured request cannot be replayed."
          "HEAD /acme/new-nonce\n\n200 OK\nReplay-Nonce: oQ3xK1vX2d6Hq9tYb0mR3w\nCache-Control: no-store"
          ((move "certbot" "acme" "HEAD /new-nonce")
            ∷ record (move "acme" "certbot" "Replay-Nonce") { kind = some Kind.response }
            ∷ []))
      ∷ (step "Account" "Register the account with EAB"
          "certbot generates an account key, signs the request with it (JWS, ES256), and embeds the EAB: its JWK signed with the HMAC key. Certadillo checks the HMAC, burns the EAB credential and binds the account to the app."
          "POST /acme/new-account\nContent-Type: application/jose+json\n\nprotected: {\"alg\":\"ES256\",\"jwk\":{\"kty\":\"EC\",\"crv\":\"P-256\",...},\n            \"nonce\":\"oQ3x...\",\"url\":\".../acme/new-account\"}\npayload:   {\"termsOfServiceAgreed\":true,\n            \"externalAccountBinding\":{\n              \"protected\":{\"alg\":\"HS256\",\"kid\":\"eab_ea1a...\",\"url\":\"...\"},\n              \"payload\": <account JWK>, \"signature\": <HMAC-SHA256>}}\n\n201 Created   Location: .../acme/acct/1"
          (record (move "certbot" "acme" "POST /new-account") { sub = some "JWS + EAB" }
            ∷ record (move "acme" "ra" "verify EAB HMAC") { effect = some Effect.check }
            ∷ record (move "ra" "db" "account 1 -> app web-portal") {
              kind = some Kind.response;
              effect = some Effect.store;
            }
            ∷ record (move "acme" "certbot" "201 acct/1") { kind = some Kind.response }
            ∷ []))
      ∷ (step "Order" "Order two names"
          "The order lists the DNS names. Certadillo checks them against the app's scope (*.portal.bank.internal) before creating any challenge, then returns one authorization per name."
          "POST /acme/new-order   (JWS, kid = .../acme/acct/1)\npayload: {\"identifiers\":[\n  {\"type\":\"dns\",\"value\":\"www.portal.bank.internal\"},\n  {\"type\":\"dns\",\"value\":\"api.portal.bank.internal\"}]}\n\n201 Created   Location: .../acme/order/7\n{\"status\":\"pending\",\n \"authorizations\":[\".../authz/11\",\".../authz/12\"],\n \"finalize\":\".../acme/order/7/finalize\"}"
          ((move "certbot" "acme" "POST /new-order")
            ∷ record (move "acme" "ra" "scope check") {
              sub = some "*.portal.bank.internal";
              effect = some Effect.check;
              dilly = some happy;
            }
            ∷ record (move "acme" "certbot" "order 7: pending") { kind = some Kind.response }
            ∷ []))
      ∷ (step "Order" "What an out-of-scope order looks like"
          "If the account asks for a name the app never had, the order is refused at once with rejectedIdentifier and the attempt goes into the audit trail. No challenge is ever created for it."
          "POST /acme/new-order\npayload: {\"identifiers\":[{\"type\":\"dns\",\"value\":\"www.google.com\"}]}\n\n403\n{\"type\":\"urn:ietf:params:acme:error:rejectedIdentifier\",\n \"detail\":\"outside app scope: www.google.com\"}"
          ((move "certbot" "acme" "new-order www.google.com")
            ∷ record (move "acme" "ra" "scope check") {
              effect = some Effect.reject;
              dilly = some worried;
            }
            ∷ record (move "ra" "db" "audit: certificate.rejected") {
              kind = some Kind.reject;
              effect = some Effect.store;
            }
            ∷ record (move "acme" "certbot" "403 rejectedIdentifier") { kind = some Kind.reject }
            ∷ []))
      ∷ (step "Challenge" "Fetch the http-01 challenge"
          "For each authorization certbot receives a random token. The key authorization is the token joined to the thumbprint of the account key."
          "POST /acme/authz/11   (POST-as-GET)\n\n{\"status\":\"pending\",\n \"identifier\":{\"type\":\"dns\",\"value\":\"www.portal.bank.internal\"},\n \"challenges\":[{\"type\":\"http-01\",\n   \"url\":\".../acme/chall/11\",\n   \"token\":\"LoqXcYV8q5ONbJQxbmR7SCTNo3tiAXDfowyjxAjEuX0\"}]}"
          (record (move "certbot" "acme" "POST /authz/11") { dilly = some happy }
            ∷ record (move "acme" "certbot" "token") { kind = some Kind.response }
            ∷ []))
      ∷ (step "Challenge" "Serve the key authorization"
          "certbot (standalone or webroot) publishes the key authorization on port 80 at a well-known path."
          "/.well-known/acme-challenge/LoqXcYV8q5ONbJQxbmR7SCTNo3tiAXDfowyjxAjEuX0\n\nLoqXcYV8q5ONbJQxbmR7SCTNo3tiAXDfowyjxAjEuX0.9jg46WB3rR_AHD-EBXdN7cBkH1WOu0tA3M9fm21mqTI"
          (record (move "certbot" "web" "token.thumbprint") { kind = some Kind.local } ∷ []))
      ∷ (step "Challenge" "Validate http-01"
          "certbot tells Certadillo it is ready. Certadillo fetches the path over HTTP from where it runs (off the event loop, so a slow host only delays its own order), compares in constant time, and marks the authorization valid. With CERTADILLO_ACME_CHALLENGE=ra-scope this network check is skipped for names already in scope."
          "POST /acme/chall/11   payload: {}\n\nCertadillo -> GET http://www.portal.bank.internal/.well-known/acme-challenge/LoqX...\n          <- LoqX....9jg46WB3...\n\n{\"type\":\"http-01\",\"status\":\"valid\",\"validated\":\"2026-09-23T22:31:39Z\"}"
          ((move "certbot" "acme" "POST /chall/11")
            ∷ (move "acme" "web" "GET /.well-known/acme-challenge/...")
            ∷ record (move "web" "acme" "key authorization") {
              kind = some Kind.response;
              effect = some Effect.check;
            }
            ∷ []))
      ∷ (step "Issue" "Finalize with a CSR"
          "certbot generates the certificate key locally and sends a CSR. The RA runs the same policy as every other protocol: proof of possession, P-256 allowed, both SANs in scope, 30-day default validity. The issuing CA builds the certificate and the HSM signs its to-be-signed bytes; the CA key never leaves the HSM."
          "POST /acme/order/7/finalize\npayload: {\"csr\": \"MIIBJjCBzQIBADAjMSEwHwYDVQQDDBh3d3cucG9ydGFsLmJhbmsu...\"}\n\nPolicy: csr_signature ok · key ec-256 ok · SAN www/api.portal.bank.internal in scope\n        validity 30d <= 90d · profile tls-server\nHSM:    C_Sign(CKM_ECDSA, SHA-384(tbsCertificate)) -> (r, s)"
          (record (move "certbot" "acme" "POST /finalize") { sub = some "CSR" }
            ∷ record (move "acme" "ra" "policy engine") { effect = some Effect.check }
            ∷ (move "ra" "ca" "build certificate")
            ∷ record (move "ca" "hsm" "sign TBS digest") {
              kind = some Kind.secret;
              effect = some Effect.hsm;
            }
            ∷ record (move "hsm" "ca" "ECDSA signature") {
              kind = some Kind.response;
              effect = some Effect.sign;
            }
            ∷ []))
      ∷ (step "Issue" "Record it"
          "The certificate row and its audit event commit in one transaction. The audit event extends the SHA-256 hash chain (the stack of blocks). Prometheus sees the new expiry gauge on its next scrape, labelled with app, team and environment."
          "audit_event {\n  actor: \"acme:1:web-portal\", action: \"certificate.issue\",\n  target: \"7b4c294dac830d452407acffe8492c99a84d2bd6\",\n  details: {protocol: \"acme\", profile: \"tls-server\", not_after: \"2026-10-23\"},\n  prev_hash: \"5f1c...\", hash: \"a93e...\"\n}\ncertadillo_issuance_total{profile=\"tls-server\",protocol=\"acme\",result=\"issued\"} += 1"
          (record (move "ca" "db" "certificate + audit event") {
            kind = some Kind.response;
            effect = some Effect.store;
          }
            ∷ []))
      ∷ (step "Issue" "Download the chain"
          "certbot downloads the leaf plus the issuing CA and installs it. The root is distributed out of band to relying parties."
          "POST /acme/cert/42   (POST-as-GET)\nContent-Type: application/pem-certificate-chain\n\n-----BEGIN CERTIFICATE-----   (www.portal.bank.internal, 30 days)\n-----BEGIN CERTIFICATE-----   (Example Bank Issuing CA issuing-ca-1)"
          ((move "certbot" "acme" "POST /cert/42")
            ∷ record (move "acme" "certbot" "PEM chain") { kind = some Kind.response }
            ∷ []))
      ∷ (step "Renew" "Renew at two-thirds of the lifetime"
          "certbot's timer renews with a new key around day 20 of 30, reusing the account, so no new EAB is needed. If that timer ever stops, the lifetime-aware alert fires at 10 days left (warning) and 3 days left (critical), routed to the web team."
          "systemd: certbot.timer -> certbot renew\nnew order -> new CSR (new key) -> new certificate\nold certificate: status superseded, replaced_by = 43"
          ((move "certbot" "acme" "certbot renew")
            ∷ record (move "acme" "db" "old -> superseded") {
              kind = some Kind.response;
              effect = some Effect.store;
            }
            ∷ record (move "acme" "certbot" "new chain") { kind = some Kind.response }
            ∷ []))
      ∷ [];
}
