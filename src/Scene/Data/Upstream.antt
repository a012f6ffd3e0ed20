-- ===== src/Scene/Data/Upstream.antt =====
-- The walkthrough `upstream` of kb-src/scenes-data.js, as it is registered there.
use certadillo.Prelude.{[], ◌∷◌, some, none}
use certadillo.Prelude.Int.{pos, negsuc}
use certadillo.Scene.Def.{Scene, Model, Kind, Effect, happy, worried, move, step}

abbrev pub upstream : Scene
upstream = record {
  id = "upstream";
  title = "Upstream issuers: a public ACME CA";
  dilly = some "ra";
  chain_at = some "db";
  chain_offset = some (pos 120, pos 20);
  camera = some (record { theta = pos 30; phi = 110; radius = 2150 });
  platform_radius = none;
  actors =
      record {
        id = "app";
        kind = Model.terminal;
        label = "online-banking";
        sub = some "app in Internet facing";
        x = negsuc 719;
        z = pos 200;
        anchor_y = some 90;
        label_y = some 190;
        color = none;
      }
      ∷ record {
        id = "ra";
        kind = Model.shield;
        label = "Certadillo RA";
        sub = some "policy first";
        x = negsuc 199;
        z = negsuc 59;
        anchor_y = some 140;
        label_y = none;
        color = none;
      }
      ∷ record {
        id = "acme";
        kind = Model.gateway;
        label = "ACME client";
        sub = some "account key encrypted";
        x = pos 240;
        z = negsuc 379;
        anchor_y = some 120;
        label_y = none;
        color = none;
      }
      ∷ record {
        id = "le";
        kind = Model.globe;
        label = "Public ACME CA";
        sub = some "Let's Encrypt, or any RFC 8555 CA";
        x = pos 740;
        z = negsuc 99;
        anchor_y = some 140;
        label_y = some 280;
        color = none;
      }
      ∷ record {
        id = "dns";
        kind = Model.server;
        label = "Authoritative DNS";
        sub = some "RFC 2136 + TSIG";
        x = pos 340;
        z = pos 380;
        anchor_y = some 110;
        label_y = none;
        color = none;
      }
      ∷ record {
        id = "db";
        kind = Model.db;
        label = "Inventory + audit";
        sub = some "certificate + chain";
        x = negsuc 259;
        z = pos 580;
        anchor_y = some 110;
        label_y = none;
        color = none;
      }
      ∷ [];
  steps =
      (step "Route" "The folder says who signs"
        "Apps in the Internet facing folder use the public-acme issuer, locked, and may only ask for names under bank.example. online-banking asks for www.bank.example with its own CSR, exactly as it would from the internal CA."
        "\\Internet facing   issuer public-acme (locked), allowed_zones bank.example (locked)\n\nissuers:\n  public-acme:\n    type: acme\n    directory: https://acme-v02.api.letsencrypt.org/directory\n    dns: {provider: rfc2136, server: 10.1.0.53, zone: bank.example.,\n          tsig_name: certadillo-acme., tsig_secret_ref: vault:...#tsig}"
        ((move "app" "ra" "CSR www.bank.example") ∷ []))
      ∷ (step "Route" "Policy runs before anything leaves the bank"
          "Scope, zone, key size, validity and dual control are all checked here. A request that fails policy never reaches the public CA, so nothing about it appears in Certificate Transparency."
          "scope *.bank.example          ok\nallowed_zones bank.example    ok\nkey ec P-256                  ok\nissuer: public-acme (from \\Internet facing, locked)"
          (record (move "ra" "acme" "approved request") { effect = some Effect.check } ∷ []))
      ∷ (step "Order" "New order, dns-01 challenge"
          "The ACME client opens an order for the approved names with its account key. The CA answers with a dns-01 challenge for each name."
          "POST /acme/new-order  {\"identifiers\": [{\"type\": \"dns\", \"value\": \"www.bank.example\"}]}\n-> authorization: challenge dns-01, token \"evaGxfADs6pSRb2LAv9IZf17Dt3juxGJ-PCt92wr-oA\""
          ((move "acme" "le" "newOrder (JWS)")
            ∷ record (move "le" "acme" "dns-01 challenge") { kind = some Kind.response }
            ∷ []))
      ∷ (step "Order" "Publish the TXT record with a TSIG-signed update"
          "The client writes _acme-challenge.www.bank.example through an RFC 2136 dynamic update signed with the TSIG key from Vault, waits for propagation, then tells the CA to validate."
          "nsupdate (TSIG certadillo-acme., hmac-sha256)\n  update add _acme-challenge.www.bank.example. 60 TXT \"Yd6J...base64url(SHA-256(keyAuthorization))\"\nsleep 20   (propagation_seconds)\nPOST challenge URL {}"
          (record (move "acme" "dns" "UPDATE TXT (TSIG)") { kind = some Kind.secret }
            ∷ record (move "le" "dns" "query TXT") { effect = some Effect.check }
            ∷ record (move "le" "acme" "valid") { kind = some Kind.response }
            ∷ []))
      ∷ (step "Order" "Finalize with the app's own CSR"
          "The order is finalized with the CSR the app sent, so the key never left the app. The TXT record is removed and the certificate and chain downloaded."
          "POST /acme/finalize  {\"csr\": base64url(app CSR)}\nGET certificate -> leaf + R11 + ISRG Root X1\nupdate delete _acme-challenge.www.bank.example. TXT"
          ((move "acme" "le" "finalize (app CSR)")
            ∷ record (move "le" "acme" "certificate + chain") {
              kind = some Kind.response;
              effect = some Effect.sign;
            }
            ∷ record (move "acme" "dns" "delete TXT") { kind = some Kind.local }
            ∷ []))
      ∷ (step "Check" "Trust, but check"
          "Before anything is stored, Certadillo compares what came back with what was approved: the public key must be the one in the CSR and there must be no extra DNS name. Then it goes into the inventory with its chain, owned by the app, and back to the app."
          "public key == CSR key          ok\nSANs subset of approved names  ok\ninventory: backend public-acme, chain_pem stored\naudit: certificate.issue"
          (record (move "acme" "ra" "certificate") {
            kind = some Kind.response;
            effect = some Effect.check;
          }
            ∷ record (move "ra" "db" "inventory + audit") {
              kind = some Kind.response;
              effect = some Effect.store;
              dilly = some happy;
            }
            ∷ record (move "ra" "app" "certificate + chain") { kind = some Kind.response }
            ∷ []))
      ∷ (step "Check" "A CA that adds a name gets nothing stored"
          "If an upstream CA ever returned a certificate with a name nobody approved, or a different key, it is treated as a failure: nothing is stored or returned to the app, and the error is audited."
          "upstream certificate carries www2.bank.example, which the policy did not approve\naudit: certificate.rejected (issuer public-acme)"
          (record (move "acme" "ra" "unexpected SAN") {
            kind = some Kind.reject;
            effect = some Effect.reject;
            dilly = some worried;
          }
            ∷ []))
      ∷ [];
}
