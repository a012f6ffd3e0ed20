-- ===== src/Scene/Data/AuditShip.antt =====
-- The walkthrough `auditship` of kb-src/scenes-data.js, as it is registered there.
use certadillo.Prelude.{[], ◌∷◌, some, none, true}
use certadillo.Prelude.Int.{pos, negsuc}
use certadillo.Scene.Def.{Scene, Model, Kind, Effect, happy, worried, rolled, move, step}

abbrev pub auditship : Scene
auditship = record {
  id = "auditship";
  title = "Tamper-evident audit shipping";
  dilly = some "shipper";
  chain_at = some "db";
  chain_offset = some (pos 120, pos 20);
  camera = some (record { theta = pos 30; phi = 110; radius = 2150 });
  platform_radius = none;
  actors =
      record {
        id = "ops";
        kind = Model.person;
        label = "Operator";
        sub = some "issues, revokes";
        x = negsuc 679;
        z = pos 440;
        anchor_y = none;
        label_y = none;
        color = none;
      }
      ∷ record {
        id = "db";
        kind = Model.db;
        label = "Audit table";
        sub = some "hash chain · append-only";
        x = negsuc 419;
        z = negsuc 159;
        anchor_y = some 110;
        label_y = none;
        color = none;
      }
      ∷ record {
        id = "shipper";
        kind = Model.gateway;
        label = "Audit shipper";
        sub = some "Ed25519 · cursor per sink";
        x = pos 60;
        z = pos 40;
        anchor_y = some 150;
        label_y = none;
        color = none;
      }
      ∷ record {
        id = "siem";
        kind = Model.chart;
        label = "SIEM";
        sub = some "syslog TLS · Splunk HEC";
        x = pos 660;
        z = negsuc 359;
        anchor_y = some 100;
        label_y = none;
        color = none;
      }
      ∷ record {
        id = "s3";
        kind = Model.cloud;
        label = "S3 Object Lock";
        sub = some "COMPLIANCE · 7 years";
        x = pos 680;
        z = pos 320;
        anchor_y = some 120;
        label_y = none;
        color = none;
      }
      ∷ record {
        id = "auditor";
        kind = Model.person;
        label = "Internal audit";
        sub = some "public key only";
        x = pos 240;
        z = pos 700;
        anchor_y = none;
        label_y = none;
        color = none;
      }
      ∷ record {
        id = "attacker";
        kind = Model.terminal;
        label = "DB owner (rogue)";
        sub = some "drops the triggers";
        x = negsuc 719;
        z = negsuc 539;
        anchor_y = some 90;
        label_y = some 190;
        color = none;
      }
      ∷ [];
  steps =
      (step "Record" "Every action is a link in a hash chain"
        "Each audit event stores the hash of the previous one, so changing any event breaks every link after it. The table refuses UPDATE and DELETE."
        "hash = SHA-256(prev_hash | ts | actor | action | target | details)\n\n#411 certificate.issue    prev 3a9f...  hash 9c1e...\n#412 certificate.revoke   prev 9c1e...  hash b04d..."
        (record (move "ops" "db" "certificate.revoke") { effect = some Effect.store } ∷ []))
      ∷ (step "Ship" "Signed and sent within seconds"
          "Every 15 seconds the shipper takes what each sink has not seen, checks the database still continues the chain it already shipped, and signs every record with an Ed25519 key that never leaves the host."
          "{\"id\": 412, \"action\": \"certificate.revoke\", \"prev_hash\": \"9c1e...\", \"hash\": \"b04d...\",\n \"instance\": \"https://pki.bank.internal\",\n \"kid\": \"5e0b9a2c4d1f8e37\", \"sig\": \"MEUCIQ...\", \"mac\": \"d2a1...\"}"
          (record (move "db" "shipper" "events after cursor") { kind = some Kind.response }
            ∷ record (move "shipper" "shipper" "chain continues? sign") {
              effect = some Effect.sign;
              local = true;
            }
            ∷ []))
      ∷ (step "Ship" "Two places, two owners"
          "Records go over TLS to the SOC's SIEM for search and correlation, and as one object per batch to an S3 bucket with Object Lock in COMPLIANCE mode. Not even the bucket owner can delete those objects before retention ends."
          "<109>1 2026-11-04T02:51:07Z pki certadillo - certificate.revoke - {...}\n\nPUT s3://pki-audit/certadillo/prod/000000000401-000000000412.jsonl\n  x-amz-object-lock-mode: COMPLIANCE\n  x-amz-object-lock-retain-until-date: 2033-11-02"
          (record (move "shipper" "siem" "syslog over TLS") { kind = some Kind.secret }
            ∷ record (move "shipper" "s3" "PutObject (locked)") {
              kind = some Kind.secret;
              effect = some Effect.store;
            }
            ∷ []))
      ∷ (step "Verify" "Checked by someone who cannot forge"
          "Internal audit holds only the public key. verify-export recomputes every hash, checks every link and every signature. They can prove the copy is intact, but could not produce a record that verifies."
          "certadillo audit verify-export prod-2026-11.jsonl --public-key certadillo-audit.pub --no-mac\n\n{\"valid\": true, \"records\": 18342, \"from_genesis\": true,\n \"signatures_checked\": true, \"problems\": []}"
          (record (move "s3" "auditor" "download export") { kind = some Kind.response }
            ∷ record (move "auditor" "auditor" "hashes · links · signatures") {
              effect = some Effect.check;
              dilly = some happy;
              local = true;
            }
            ∷ []))
      ∷ (step "Attack" "History rewritten in the database"
          "Someone with database owner rights drops the trigger and rewrites event 412 to hide the revocation, recomputing the hash. Inside the database the chain may look fine again."
          "DROP TRIGGER audit_events_no_update;\nUPDATE audit_events SET details = '{}', hash = '<recomputed>' WHERE id = 412;"
          (record (move "attacker" "db" "rewrite #412") {
            kind = some Kind.secret;
            effect = some Effect.burn;
            dilly = some worried;
          }
            ∷ []))
      ∷ (step "Attack" "The shipper stops and raises the alarm"
          "The next event's prev_hash no longer matches the hash the shipper already sent. It refuses to ship anything past the break and AuditShippingFailing goes critical. The SIEM and the locked bucket still hold the original #412."
          "chain break after event 412: the history was changed after it was shipped\nalert AuditShippingFailing (critical)\n\nshipped copy:  #412 certificate.revoke  hash b04d...   (original, signed)"
          (record (move "db" "shipper" "#413 prev != b04d") {
            kind = some Kind.reject;
            effect = some Effect.reject;
          }
            ∷ record (move "shipper" "siem" "AuditShippingFailing") {
              kind = some Kind.reject;
              effect = some Effect.burn;
              dilly = some rolled;
            }
            ∷ []))
      ∷ (step "Attack" "Forging the export does not work either"
          "Editing a shipped record and recomputing its hash keeps the chain intact, but the signature no longer verifies, and stripping the signatures fails too. The only key that signs is on the Certadillo host, encrypted under the key passphrase."
          "verify-export rewritten.jsonl --public-key certadillo-audit.pub\n{\"valid\": false,\n \"problems\": [{\"id\": 412, \"problem\": \"signature does not verify (not from this Certadillo)\"}]}"
          (record (move "auditor" "auditor" "signature fails") {
            effect = some Effect.reject;
            local = true;
          }
            ∷ []))
      ∷ [];
}
