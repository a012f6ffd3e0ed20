-- ===== src/Scene/Data/OfflineRoot.antt =====
-- The walkthrough `offlineroot` of kb-src/scenes-data.js, as it is registered there.
use certadillo.Prelude.{[], ◌∷◌, some, none}
use certadillo.Prelude.Int.{pos, negsuc}
use certadillo.Scene.Def.{Scene, Model, Kind, Effect, happy, worried, move, step}

abbrev pub offlineroot : Scene
offlineroot = record {
  id = "offlineroot";
  title = "Offline root ceremony";
  dilly = some "server";
  chain_at = some "db";
  chain_offset = some (pos 120, pos 20);
  camera = some (record { theta = pos 30; phi = 110; radius = 2150 });
  platform_radius = none;
  actors =
      record {
        id = "operator";
        kind = Model.person;
        label = "Operator";
        sub = some "runs the ceremony";
        x = negsuc 279;
        z = pos 700;
        anchor_y = none;
        label_y = none;
        color = none;
      }
      ∷ record {
        id = "witness";
        kind = Model.person;
        label = "Witness";
        sub = some "a second person";
        x = pos 140;
        z = pos 720;
        anchor_y = none;
        label_y = none;
        color = none;
      }
      ∷ record {
        id = "offline";
        kind = Model.laptop;
        label = "Air-gapped machine";
        sub = some "certadillo offline-root";
        x = negsuc 719;
        z = pos 100;
        anchor_y = some 80;
        label_y = none;
        color = none;
      }
      ∷ record {
        id = "root";
        kind = Model.ca;
        label = "Root CA";
        sub = some "key on removable media";
        x = negsuc 659;
        z = negsuc 439;
        anchor_y = some 160;
        label_y = some 300;
        color = none;
      }
      ∷ record {
        id = "server";
        kind = Model.shield;
        label = "Certadillo server";
        sub = some "never holds the root key";
        x = pos 100;
        z = negsuc 99;
        anchor_y = some 140;
        label_y = none;
        color = none;
      }
      ∷ record {
        id = "hsm";
        kind = Model.hsm;
        label = "HSM";
        sub = some "issuing CA key";
        x = pos 660;
        z = negsuc 359;
        anchor_y = some 60;
        label_y = some 150;
        color = none;
      }
      ∷ record {
        id = "db";
        kind = Model.db;
        label = "Inventory + audit";
        sub = none;
        x = pos 540;
        z = pos 360;
        anchor_y = some 110;
        label_y = none;
        color = none;
      }
      ∷ [];
  steps =
      (step "Root" "The root is born offline"
        "On a machine that has never been on a network, the root key is generated, encrypted with a passphrase of at least 16 characters, and written to removable media with its self-signed certificate. The fingerprint goes on the ceremony form; every later step is checked against it."
        "certadillo offline-root init --dir /media/root-ca --org \"Example Bank\" --years 20\n\n{\"root\": \"/media/root-ca/root.pem\",\n \"sha256\": \"68a4e733a3e901ac584dbd36131145087ca396f41a3fd41a78faacbee99cbd89\",\n \"not_after\": \"2046-11-04T06:07:03+00:00\"}"
        (record (move "operator" "offline" "init (passphrase)") { kind = some Kind.secret }
          ∷ record (move "offline" "root" "root key, encrypted") {
            kind = some Kind.secret;
            effect = some Effect.sign;
          }
          ∷ []))
      ∷ (step "Issuing CA" "The issuing key is made in the HSM"
          "On the server side, the issuing CA's key is generated where CA keys live and never leaves it. Certadillo writes a CSR asking for a CA with pathlen 0 and the name constraints it is configured to require. Operator and witness are recorded."
          "certadillo ca offline-csr --name issuing-ca-1 --operator alice --witness bob --out issuing.csr\n\naudit: ca.offline.csr  key_ref pkcs11:issuing-ca-1  spki_sha256 d3cd9ea6..."
          (record (move "server" "hsm" "generate key") {
            kind = some Kind.secret;
            effect = some Effect.hsm;
          }
            ∷ record (move "server" "db" "audit: ca.offline.csr") {
              kind = some Kind.response;
              effect = some Effect.store;
            }
            ∷ []))
      ∷ (step "Issuing CA" "The root signs, offline"
          "The CSR travels on media. Only the subject, the public key and the name constraints are taken from it; the CA flags, key usage, validity cap and CRL location are set by the tool. The subject and fingerprint are read aloud for the witness."
          "certadillo offline-root sign --dir /media/root-ca --csr issuing.csr --out issuing.pem \\\n  --years 5 --crl-url https://pki.bank.internal/pki/crl/root-ca.crl\n\nBasicConstraints CA:TRUE pathlen:0 (critical)\nKeyUsage keyCertSign, cRLSign (critical)\nNameConstraints permitted DNS:bank.internal (critical, from the CSR)"
          (record (move "server" "offline" "issuing.csr (media)") { kind = some Kind.local }
            ∷ record (move "root" "offline" "sign") { effect = some Effect.sign }
            ∷ record (move "witness" "offline" "checks the fingerprint") {
              effect = some Effect.check;
            }
            ∷ []))
      ∷ (step "Import" "The server checks everything it is given"
          "The signed certificate must carry the key generated in the HSM, verify with the root's key (not just name it), be a pathlen 0 CA inside the root's validity, and keep the required name constraints. The root is stored with no key at all."
          "certadillo ca import-issuing --name issuing-ca-1 --cert issuing.pem --root root.pem \\\n  --operator alice --witness bob\n\nroot-ca       key_ref offline:68a4e733...   signer offline\nissuing-ca-1  key_ref pkcs11:issuing-ca-1   signer pkcs11"
          (record (move "offline" "server" "issuing.pem + root.pem") { kind = some Kind.response }
            ∷ record (move "server" "hsm" "key matches?") {
              effect = some Effect.check;
              dilly = some happy;
            }
            ∷ record (move "server" "db" "audit: ca.offline.import") {
              kind = some Kind.response;
              effect = some Effect.store;
            }
            ∷ []))
      ∷ (step "Import" "A certificate with someone else's key is refused"
          "If the certificate that comes back carries a different key, even one signed by the real root, the import stops. The same happens for a forged root that copies the real root's name, or a certificate that dropped the name constraints."
          "ceremony error: the certificate does not carry the key generated for this ceremony\nceremony error: the certificate's signature does not verify with the root's key\nceremony error: the certificate does not carry the name constraints this server requires"
          (record (move "offline" "server" "wrong key") {
            kind = some Kind.reject;
            effect = some Effect.reject;
            dilly = some worried;
          }
            ∷ []))
      ∷ (step "CRL" "The root CRL, twice a year"
          "Only the offline root can sign its CRL, so it is signed at the ceremony and imported. The server checks the signature and refuses a CRL whose number is not newer, so an old CRL cannot be replayed to take a revocation back. CRLStale warns 30 days before it expires."
          "certadillo offline-root crl --dir /media/root-ca --out root.crl --days 180\ncertadillo ca import-crl --ca root-ca root.crl\n{\"ca\": \"root-ca\", \"crl_number\": 2, \"next_update\": \"2027-05-03T...\", \"revoked\": 0}\n\nreplay of CRL #1 -> 400 CRL number 1 is not newer than the current 2"
          (record (move "root" "offline" "sign CRL") { effect = some Effect.sign }
            ∷ record (move "offline" "server" "root.crl (media)") { kind = some Kind.local }
            ∷ record (move "server" "db" "audit: ca.crl.import") {
              kind = some Kind.response;
              effect = some Effect.store;
            }
            ∷ []))
      ∷ [];
}
