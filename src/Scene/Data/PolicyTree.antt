-- ===== src/Scene/Data/PolicyTree.antt =====
-- The walkthrough `policytree` of kb-src/scenes-data.js, as it is registered there.
use certadillo.Prelude.{[], ◌∷◌, some, none}
use certadillo.Prelude.Int.{pos, negsuc}
use certadillo.Scene.Def.{Scene, Model, Kind, Effect, worried, rolled, move, step}

abbrev pub policytree : Scene
policytree = record {
  id = "policytree";
  title = "The policy tree";
  dilly = some "policy";
  chain_at = some "db";
  chain_offset = some (pos 120, pos 20);
  camera = some (record { theta = pos 28; phi = 108; radius = 2100 });
  platform_radius = none;
  actors =
      record {
        id = "admin";
        kind = Model.person;
        label = "Policy admin";
        sub = some "asks for changes";
        x = negsuc 659;
        z = pos 500;
        anchor_y = none;
        label_y = none;
        color = none;
      }
      ∷ record {
        id = "approver";
        kind = Model.person;
        label = "Approver";
        sub = some "a different person";
        x = negsuc 139;
        z = pos 720;
        anchor_y = none;
        label_y = none;
        color = none;
      }
      ∷ record {
        id = "bank";
        kind = Model.chart;
        label = "\\Bank";
        sub = some "zones bank.internal (locked) · RSA 3072 (locked)";
        x = negsuc 539;
        z = negsuc 459;
        anchor_y = some 100;
        label_y = none;
        color = none;
      }
      ∷ record {
        id = "payments";
        kind = Model.chart;
        label = "\\Bank\\Payments";
        sub = some "max 30 days · TLS profiles only";
        x = negsuc 99;
        z = negsuc 239;
        anchor_y = some 100;
        label_y = none;
        color = none;
      }
      ∷ record {
        id = "cards";
        kind = Model.chart;
        label = "\\Bank\\Payments\\Cards";
        sub = some "issuing CA cards-ca (locked)";
        x = pos 320;
        z = negsuc 39;
        anchor_y = some 100;
        label_y = none;
        color = none;
      }
      ∷ record {
        id = "policy";
        kind = Model.shield;
        label = "Policy engine";
        sub = some "profile, then folder chain";
        x = pos 360;
        z = negsuc 559;
        anchor_y = some 120;
        label_y = none;
        color = none;
      }
      ∷ record {
        id = "app";
        kind = Model.terminal;
        label = "card-api";
        sub = some "app in Cards";
        x = pos 720;
        z = pos 260;
        anchor_y = some 90;
        label_y = some 190;
        color = none;
      }
      ∷ record {
        id = "db";
        kind = Model.db;
        label = "Approvals + audit";
        sub = some "folders and apps sealed";
        x = pos 120;
        z = pos 480;
        anchor_y = some 110;
        label_y = none;
        color = none;
      }
      ∷ [];
  steps =
      (step "Build" "A folder is a policy change, so it needs two people"
        "The admin asks for the top folder with the bank's zone and a minimum RSA size, both locked. Creating a folder changes what apps may get, so it is an approval request: the response is 202 and nothing exists yet."
        "POST /api/v1/folders\n{\"name\": \"Bank\",\n \"settings\": {\"allowed_zones\": {\"value\": [\"bank.internal\"], \"locked\": true},\n              \"rsa_min_bits\":  {\"value\": 3072, \"locked\": true}}}\n\n202 {\"status\": \"pending_approval\", \"approval_id\": 41, \"change\": \"create_folder\"}"
        ((move "admin" "policy" "POST /folders")
          ∷ record (move "policy" "db" "approval #41") {
            kind = some Kind.response;
            effect = some Effect.store;
          }
          ∷ []))
      ∷ (step "Build" "A second person approves"
          "An approver who is not the admin decides. The folder is created, sealed, and the audit trail records the settings. Payments and Cards are added below it the same way."
          "POST /api/v1/approvals/41/approve   (approver key)\naudit: policy.folder.create  \\Bank  {allowed_zones, rsa_min_bits}\n\n\\Bank\n\\Bank\\Payments          max_validity_days 30, allowed_profiles tls-server, tls-client\n\\Bank\\Payments\\Cards    issuing_ca cards-ca (locked)"
          (record (move "approver" "db" "approve #41") { effect = some Effect.check }
            ∷ record (move "db" "bank" "create \\Bank") { kind = some Kind.response }
            ∷ record (move "bank" "payments" "child") { kind = some Kind.local }
            ∷ record (move "payments" "cards" "child") { kind = some Kind.local }
            ∷ []))
      ∷ (step "Inherit" "What card-api actually gets"
          "card-api sits in Cards. Its effective policy is its profile narrowed by every folder above it: names only under bank.internal, RSA of at least 3072 bits, at most 30 days, signed by cards-ca. Each rule shows the folder it came from and whether it is locked."
          "GET /api/v1/apps/7/policy\n{\"app\": \"card-api\", \"profile\": \"tls-server\",\n \"folder\": \"\\\\Bank\\\\Payments\\\\Cards\",\n \"folder_rules\": {\n  \"allowed_zones\":     {\"value\": [\"bank.internal\"], \"locked\": true, \"folder\": \"\\\\Bank\"},\n  \"rsa_min_bits\":      {\"value\": 3072, \"locked\": true, \"folder\": \"\\\\Bank\"},\n  \"max_validity_days\": {\"value\": 30, \"locked\": false, \"folder\": \"\\\\Bank\\\\Payments\"},\n  \"issuing_ca\":        {\"value\": \"cards-ca\", \"locked\": true, \"folder\": \"\\\\Bank\\\\Payments\\\\Cards\"}}}"
          (record (move "bank" "policy" "zones · RSA 3072") { kind = some Kind.local }
            ∷ record (move "payments" "policy" "30 days") { kind = some Kind.local }
            ∷ record (move "cards" "policy" "cards-ca") { kind = some Kind.local }
            ∷ record (move "policy" "app" "effective policy") {
              kind = some Kind.response;
              effect = some Effect.check;
            }
            ∷ []))
      ∷ (step "Enforce" "A 2048-bit key is refused"
          "card-api sends a CSR with an RSA 2048 key. The profile alone would allow it, but the locked rule on \\Bank does not. The request is refused with the folder named, and the refusal is audited."
          "POST /api/v1/certificates  (RSA 2048, api.cards.bank.internal)\n\n422 {\"error\": \"policy_violation\",\n     \"violations\": [{\"rule\": \"folder_key_strength\",\n                     \"message\": \"RSA 2048 below 3072 required by \\\\Bank\"}]}\naudit: certificate.rejected"
          ((move "app" "policy" "CSR RSA 2048")
            ∷ record (move "policy" "app" "422 below 3072") {
              kind = some Kind.reject;
              effect = some Effect.reject;
              dilly = some worried;
            }
            ∷ []))
      ∷ (step "Enforce" "Nobody below can loosen a lock"
          "The Payments admin tries to lower the minimum key size for their own folder. A setting locked higher up cannot be set below it, so this is refused before it even becomes an approval request."
          "PUT /api/v1/folders/2/settings\n{\"rsa_min_bits\": {\"value\": 2048}}\n\n400 {\"error\": \"bad_request\", \"message\": \"rsa_min_bits is locked at \\\\Bank\"}"
          ((move "admin" "payments" "rsa_min_bits 2048")
            ∷ record (move "payments" "admin" "400 locked at \\Bank") {
              kind = some Kind.reject;
              effect = some Effect.reject;
            }
            ∷ []))
      ∷ (step "Tamper" "A move done in SQL stops the app"
          "Someone with database access moves card-api to a looser folder with an UPDATE. The app's seal no longer matches, so its next issuance is refused and IntegritySealBroken fires. A real move goes through POST /apps/7/move and a second person."
          "UPDATE apps SET folder_id = 9 WHERE id = 7;   -- outside Certadillo\n\nPOST /api/v1/certificates -> 403 this app failed its integrity check (changed outside Certadillo)\nalert IntegritySealBroken (critical): app card-api was changed outside Certadillo"
          (record (move "db" "app" "folder_id changed in SQL") { kind = some Kind.secret }
            ∷ (move "app" "policy" "CSR")
            ∷ record (move "policy" "db" "seal broken · alert") {
              kind = some Kind.reject;
              effect = some Effect.burn;
              dilly = some rolled;
            }
            ∷ []))
      ∷ [];
}
