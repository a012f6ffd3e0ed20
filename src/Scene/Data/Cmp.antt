-- ===== src/Scene/Data/Cmp.antt =====
-- The walkthrough `cmp` of kb-src/scenes-data.js, as it is registered there.
use certadillo.Prelude.{[], ◌∷◌, some, none}
use certadillo.Prelude.Int.{pos, negsuc}
use certadillo.Scene.Def.{Scene, Model, Kind, Effect, happy, worried, move, step}

abbrev pub cmp : Scene
cmp = record {
  id = "cmp";
  title = "CMP for industrial devices (RFC 9483)";
  dilly = some "ra";
  chain_at = some "db";
  chain_offset = some (pos 120, pos 20);
  camera = some (record { theta = pos 30; phi = 110; radius = 2100 });
  platform_radius = none;
  actors =
      record {
        id = "operator";
        kind = Model.person;
        label = "OT engineer";
        sub = some "commissions devices";
        x = negsuc 199;
        z = pos 700;
        anchor_y = none;
        label_y = none;
        color = none;
      }
      ∷ record {
        id = "plc";
        kind = Model.terminal;
        label = "PLC / base station";
        sub = some "openssl cmp";
        x = negsuc 699;
        z = pos 160;
        anchor_y = some 90;
        label_y = some 190;
        color = none;
      }
      ∷ record {
        id = "cmp";
        kind = Model.gateway;
        label = "Certadillo CMP";
        sub = some "/.well-known/cmp";
        x = negsuc 139;
        z = negsuc 59;
        anchor_y = some 150;
        label_y = none;
        color = none;
      }
      ∷ record {
        id = "ra";
        kind = Model.shield;
        label = "RA + policy";
        sub = some "CMP RA cert · cmcRA";
        x = pos 320;
        z = negsuc 439;
        anchor_y = some 120;
        label_y = none;
        color = none;
      }
      ∷ record {
        id = "approver";
        kind = Model.person;
        label = "Approver";
        sub = some "second person";
        x = negsuc 459;
        z = negsuc 599;
        anchor_y = none;
        label_y = none;
        color = none;
      }
      ∷ record {
        id = "ca";
        kind = Model.ca;
        label = "Issuing CA";
        sub = some "issuing-ca-1";
        x = pos 700;
        z = pos 0;
        anchor_y = some 160;
        label_y = some 300;
        color = none;
      }
      ∷ record {
        id = "hsm";
        kind = Model.hsm;
        label = "HSM";
        sub = none;
        x = pos 660;
        z = pos 400;
        anchor_y = some 60;
        label_y = some 150;
        color = none;
      }
      ∷ record {
        id = "db";
        kind = Model.db;
        label = "Inventory + audit";
        sub = none;
        x = pos 220;
        z = pos 560;
        anchor_y = some 110;
        label_y = none;
        color = none;
      }
      ∷ [];
  steps =
      (step "Setup" "A one-time reference and secret"
        "A device without any certificate proves itself with a shared secret (RFC 9483 4.1.1). The operator mints a one-time reference and secret for the app plant-sensors and loads them into the device at commissioning."
        "POST /api/v1/apps/5/cmp-secret\n\n201 {\"reference\": \"cmp-37614dc792fc\",\n     \"secret\": \"q7Cq3oT0y1F2l8i9WmXbRk2v\",\n     \"expires\": \"2026-09-24T05:27:21Z\"}"
        ((move "operator" "cmp" "POST /apps/5/cmp-secret")
          ∷ record (move "cmp" "db" "secret, encrypted at rest") {
            kind = some Kind.response;
            effect = some Effect.store;
          }
          ∷ record (move "cmp" "operator" "reference + secret") { kind = some Kind.secret }
          ∷ record (move "operator" "plc" "load into device") { kind = some Kind.secret }
          ∷ []))
      ∷ (step "Enroll" "ir, protected with a MAC"
          "The device makes a key, puts the public key and its names in a CRMF template, signs the request with the new key (proof of possession) and protects the whole message with PasswordBasedMac keyed from the secret. senderKID is the reference."
          "openssl cmp -cmd ir -server pki.bank.internal -path .well-known/cmp \\\n  -ref cmp-37614dc792fc -secret pass:... -newkey dev.key \\\n  -subject /CN=s1.plant.bank.internal -sans s1.plant.bank.internal\n\nPKIHeader { pvno 2, senderKID \"cmp-37614dc792fc\",\n  protectionAlg PasswordBasedMac { salt, owf sha256, iterations 500, mac hmac-sha1 },\n  transactionID 039d45ec..., senderNonce 6f5101ad... }\nPKIBody ir { certReqId 0, template { subject, publicKey ec P-256, SAN }, popo signature }"
          (record (move "plc" "cmp" "ir (MAC)") { sub = some "CRMF + PoP"; kind = some Kind.secret }
            ∷ record (move "cmp" "ra" "MAC + PoP + scope") {
              effect = some Effect.check;
              dilly = some happy;
            }
            ∷ (move "ra" "ca" "build certificate")
            ∷ record (move "ca" "hsm" "sign") { kind = some Kind.secret; effect = some Effect.hsm }
            ∷ record (move "hsm" "ca" "signature") {
              kind = some Kind.response;
              effect = some Effect.sign;
            }
            ∷ []))
      ∷ (step "Enroll" "ip with the certificate and a trust anchor"
          "The reply is protected with the same secret. It carries the certificate, the issuing CA in extraCerts and the root in caPubs, because a device that enrolled with a password has no trust anchor yet. The secret is now spent."
          "PKIBody ip {\n  caPubs [ Example Bank Root CA ]\n  response { certReqId 0, status accepted,\n    certificate CN=s1.plant.bank.internal (tls-client, 30 days) } }\nextraCerts [ Issuing CA issuing-ca-1 ]\nrecipNonce = 6f5101ad...   (the device's senderNonce)"
          (record (move "cmp" "db" "audit: cmp.issue") {
            kind = some Kind.response;
            effect = some Effect.store;
          }
            ∷ record (move "cmp" "plc" "ip (MAC)") { kind = some Kind.response }
            ∷ []))
      ∷ (step "Enroll" "certConf, then pkiConf"
          "The device confirms it received the right certificate by sending its hash. Only then is the transaction closed. A device that asks for implicitConfirm skips this round trip; one that never confirms is flagged after 15 minutes."
          "PKIBody certConf { certHash SHA-384(certificate), certReqId 0 }\n-> PKIBody pkiconf NULL\naudit: cmp.confirmed"
          (record (move "plc" "cmp" "certConf") { sub = some "certHash" }
            ∷ record (move "cmp" "plc" "pkiConf") {
              kind = some Kind.response;
              effect = some Effect.check;
            }
            ∷ []))
      ∷ (step "Update" "kur, signed with the current certificate"
          "Before expiry the device asks for a key update, signing with its current certificate. The template may leave the subject out; it is copied from the old certificate. The old one is superseded, but still accepted for the certConf of this same transaction."
          "openssl cmp -cmd kur -cert dev.crt -key dev.key -newkey dev2.key -trusted root.pem\n\nPKIHeader { protectionAlg ecdsa-with-SHA256, extraCerts [ dev.crt, issuing CA ] }\nPKIBody kur -> kup (signed by CMP RA issuing-ca-1, EKU id-kp-cmcRA)"
          ((move "plc" "cmp" "kur (signature)")
            ∷ record (move "cmp" "ra" "same subject, new key") { effect = some Effect.check }
            ∷ record (move "ra" "ca" "sign") { effect = some Effect.sign }
            ∷ record (move "cmp" "plc" "kup (RA signature)") { kind = some Kind.response }
            ∷ []))
      ∷ (step "Approval" "Firmware signing waits for a second person"
          "A code-signing certificate needs dual control. The ip says waiting, and the device polls with pollReq; each pollRep tells it when to ask again."
          "ip { response { certReqId 0, status waiting, \"waiting for a second approver\" } }\npollReq { certReqId 0 }\npollRep { certReqId 0, checkAfter 30 }"
          ((move "plc" "cmp" "ir (code-signing)")
            ∷ record (move "cmp" "db" "approval #63") {
              kind = some Kind.response;
              effect = some Effect.store;
              dilly = some worried;
            }
            ∷ record (move "cmp" "plc" "status: waiting") { kind = some Kind.response }
            ∷ (move "plc" "cmp" "pollReq")
            ∷ record (move "cmp" "plc" "pollRep checkAfter 30") { kind = some Kind.response }
            ∷ []))
      ∷ (step "Approval" "Approved; the next poll gets the certificate"
          "The approver is not the person who asked. Once they approve, the next pollReq is answered with the ip carrying the certificate, and the device confirms it as usual."
          "POST /api/v1/approvals/63/approve   (approver key)\n\npollReq -> ip { status accepted, certificate CN=fw.plant.bank.internal, EKU codeSigning }\ncertConf -> pkiConf"
          ((move "approver" "cmp" "approve #63")
            ∷ record (move "cmp" "ca" "issue") { effect = some Effect.sign; dilly = some happy }
            ∷ (move "plc" "cmp" "pollReq")
            ∷ record (move "cmp" "plc" "ip + certificate") { kind = some Kind.response }
            ∷ []))
      ∷ (step "Revoke" "The device revokes a certificate it holds"
          "rr names the certificate by issuer and serial and gives a reason. It must be signed with a certificate of the same app. The CRL is re-signed right away."
          "openssl cmp -cmd rr -cert dev2.crt -key dev2.key -oldcert s3.crt -revreason 4\n\nPKIBody rr { certDetails { issuer, serialNumber }, crlEntryDetails { CRLReason superseded } }\n-> rp { status accepted }"
          ((move "plc" "cmp" "rr (signature)")
            ∷ record (move "cmp" "ca" "revoke + CRL") {
              kind = some Kind.secret;
              effect = some Effect.sign;
            }
            ∷ record (move "cmp" "plc" "rp accepted") { kind = some Kind.response }
            ∷ []))
      ∷ [];
}
