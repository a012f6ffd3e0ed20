-- ===== src/Scene/Data/CodeSign.antt =====
-- The walkthrough `codesign` of kb-src/scenes-data.js, as it is registered there.
use certadillo.Prelude.{[], ◌∷◌, some, none, true}
use certadillo.Prelude.Int.{pos, negsuc}
use certadillo.Scene.Def.{Scene, Model, Kind, Effect, happy, worried, move, step}

abbrev pub codesign : Scene
codesign = record {
  id = "codesign";
  title = "Code signing without handing out the key";
  dilly = some "svc";
  chain_at = some "db";
  chain_offset = some (pos 120, pos 20);
  camera = some (record { theta = pos 30; phi = 110; radius = 2150 });
  platform_radius = none;
  actors =
      record {
        id = "ci";
        kind = Model.terminal;
        label = "Build pipeline";
        sub = some "certadillo sign";
        x = negsuc 719;
        z = pos 180;
        anchor_y = some 90;
        label_y = some 190;
        color = none;
      }
      ∷ record {
        id = "svc";
        kind = Model.shield;
        label = "Signing service";
        sub = some "owning app only";
        x = negsuc 119;
        z = negsuc 59;
        anchor_y = some 140;
        label_y = none;
        color = none;
      }
      ∷ record {
        id = "approver";
        kind = Model.person;
        label = "Approver";
        sub = some "release manager";
        x = negsuc 339;
        z = pos 660;
        anchor_y = none;
        label_y = none;
        color = none;
      }
      ∷ record {
        id = "hsm";
        kind = Model.hsm;
        label = "HSM";
        sub = some "signing key";
        x = pos 440;
        z = negsuc 459;
        anchor_y = some 60;
        label_y = some 150;
        color = none;
      }
      ∷ record {
        id = "tsa";
        kind = Model.gateway;
        label = "Time stamping";
        sub = some "RFC 3161 /tsa";
        x = pos 680;
        z = pos 40;
        anchor_y = some 120;
        label_y = none;
        color = none;
      }
      ∷ record {
        id = "verifier";
        kind = Model.laptop;
        label = "Anyone verifying";
        sub = some "openssl cms -verify";
        x = pos 340;
        z = pos 640;
        anchor_y = some 80;
        label_y = none;
        color = none;
      }
      ∷ record {
        id = "db";
        kind = Model.db;
        label = "Audit";
        sub = none;
        x = pos 60;
        z = pos 420;
        anchor_y = some 110;
        label_y = none;
        color = none;
      }
      ∷ [];
  steps =
      (step "Key" "A signing key is a second-person decision"
        "An operator asks for a release key for the release-bot app. An approver who is not the requester decides. The key is generated in the HSM and gets a certificate from the code-signing profile, which lands in the inventory so its expiry is watched."
        "POST /api/v1/signing/keys {\"name\": \"payments-release\", \"app_id\": 7, \"purpose\": \"release\"}\n202 {\"status\": \"pending_approval\", \"approval_id\": 41}\nPOST /api/v1/approvals/41/approve   (approver)\naudit: codesign.key.create  key_ref pkcs11:codesign-payments-release"
        (record (move "approver" "svc" "approve #41") { effect = some Effect.check }
          ∷ record (move "svc" "hsm" "generate key") {
            kind = some Kind.secret;
            effect = some Effect.hsm;
          }
          ∷ record (move "svc" "db" "audit") {
            kind = some Kind.response;
            effect = some Effect.store;
          }
          ∷ []))
      ∷ (step "Sign" "The build sends a digest, not the file"
          "The pipeline hashes its artifact locally and sends the digest with the artifact name, version and commit. Only the owning app's credential can ask this key. A release key does not sign yet: the request waits for an approver."
          "certadillo sign dist/payments-api-3.0.0.tar.gz --key payments-release --version 3.0.0 --commit 8a925e3\n\nPOST /api/v1/signing/sign {\"key\": \"payments-release\", \"digest_alg\": \"sha384\",\n  \"digest\": \"ba46caa66521b492...\", \"artifact\": {\"name\": \"payments-api-3.0.0.tar.gz\", ...}}\n202 {\"id\": 18, \"status\": \"pending\", \"approval_id\": 52}"
          ((move "ci" "svc" "digest + artifact")
            ∷ record (move "svc" "db" "approval #52") {
              kind = some Kind.response;
              effect = some Effect.store;
            }
            ∷ []))
      ∷ (step "Sign" "Approved, then signed in the HSM"
          "The release manager approves. The HSM signs the CMS signed attributes, which carry the artifact's digest; it never sees the artifact. The request now holds a CMS detached signature with the certificate chain."
          "POST /api/v1/approvals/52/approve\n\nSignerInfo { digestAlgorithm sha384, signedAttrs { contentType data, signingTime,\n  messageDigest ba46caa6... }, signatureAlgorithm ecdsa-with-SHA384 }"
          (record (move "approver" "svc" "approve #52") {
            effect = some Effect.check;
            dilly = some happy;
          }
            ∷ record (move "svc" "hsm" "sign signed attrs") {
              kind = some Kind.secret;
              effect = some Effect.hsm;
            }
            ∷ record (move "hsm" "svc" "signature") {
              kind = some Kind.response;
              effect = some Effect.sign;
            }
            ∷ []))
      ∷ (step "Sign" "A timestamp keeps it valid after the certificate expires"
          "The signature value is time-stamped by Certadillo's RFC 3161 unit and the token is attached as an unsigned attribute. Later, a verifier can show the signature was made while the certificate was valid."
          "TimeStampToken over SHA-256(signature)\nTSTInfo { policy 2.25.<uuid>, genTime 2026-11-04T16:52:07Z, accuracy 1s }\nsigner: Time Stamping Unit issuing-ca-1 (EKU timeStamping, critical)"
          ((move "svc" "tsa" "hash of signature")
            ∷ record (move "tsa" "svc" "timestamp token") {
              kind = some Kind.response;
              effect = some Effect.sign;
            }
            ∷ record (move "svc" "db" "audit: codesign.sign") {
              kind = some Kind.response;
              effect = some Effect.store;
            }
            ∷ record (move "svc" "ci" "payments-api-3.0.0.tar.gz.p7s") { kind = some Kind.response }
            ∷ []))
      ∷ (step "Verify" "Anyone checks it with standard tools"
          "The signature is plain CMS. openssl verifies it against the artifact and the chain, and openssl ts verifies the embedded timestamp. A changed artifact fails."
          "openssl cms -verify -binary -inform DER -in payments-api-3.0.0.tar.gz.p7s \\\n  -content payments-api-3.0.0.tar.gz -CAfile chain.pem -purpose any\nCMS Verification successful"
          (record (move "ci" "verifier" "artifact + .p7s") { kind = some Kind.local }
            ∷ record (move "verifier" "verifier" "signature + timestamp") {
              effect = some Effect.check;
              local = true;
            }
            ∷ []))
      ∷ (step "Refuse" "Another team's pipeline cannot use the key"
          "A credential from a different app asks the release key for a signature and is refused. A rejected release request never gets a signature, and both are in the audit trail."
          "POST /api/v1/signing/sign {\"key\": \"payments-release\", ...}   (app: online-banking-web)\n403 {\"error\": \"forbidden\", \"message\": \"this signing key belongs to another app\"}"
          (record (move "ci" "svc" "other app's key") {
            kind = some Kind.reject;
            effect = some Effect.reject;
            dilly = some worried;
          }
            ∷ []))
      ∷ [];
}
