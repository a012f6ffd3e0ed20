-- ===== src/Scene/Data/Discover.antt =====
-- The walkthrough `discover` of kb-src/scenes-data.js, as it is registered there.
use certadillo.Prelude.{[], ◌∷◌, some, none, true}
use certadillo.Prelude.Int.{pos, negsuc}
use certadillo.Scene.Def.{Scene, Model, Kind, Effect, happy, worried, move, step}

abbrev pub discover : Scene
discover = record {
  id = "discover";
  title = "Discovery: host agent, cloud stores, CT";
  dilly = some "ra";
  chain_at = some "db";
  chain_offset = some (pos 120, pos 20);
  camera = some (record { theta = pos 30; phi = 110; radius = 2200 });
  platform_radius = none;
  actors =
      record {
        id = "host";
        kind = Model.server;
        label = "app01";
        sub = some "certadillo agent scan";
        x = negsuc 699;
        z = pos 260;
        anchor_y = some 110;
        label_y = none;
        color = none;
      }
      ∷ record {
        id = "ra";
        kind = Model.shield;
        label = "Certadillo";
        sub = some "agent role · sources";
        x = negsuc 99;
        z = negsuc 19;
        anchor_y = some 140;
        label_y = none;
        color = none;
      }
      ∷ record {
        id = "cloud";
        kind = Model.cloud;
        label = "Cloud stores";
        sub = some "AWS ACM · Key Vault · GCP";
        x = negsuc 539;
        z = negsuc 459;
        anchor_y = some 120;
        label_y = none;
        color = none;
      }
      ∷ record {
        id = "ct";
        kind = Model.radar;
        label = "CT logs";
        sub = some "via Cert Spotter";
        x = pos 420;
        z = negsuc 519;
        anchor_y = some 100;
        label_y = none;
        color = none;
      }
      ∷ record {
        id = "bell";
        kind = Model.bell;
        label = "Alerts";
        sub = some "owning team · SOC";
        x = pos 720;
        z = pos 120;
        anchor_y = some 100;
        label_y = none;
        color = none;
      }
      ∷ record {
        id = "team";
        kind = Model.person;
        label = "App team";
        sub = some "fixes and confirms";
        x = pos 360;
        z = pos 640;
        anchor_y = none;
        label_y = none;
        color = none;
      }
      ∷ record {
        id = "db";
        kind = Model.db;
        label = "Inventory + findings";
        sub = some "audit";
        x = negsuc 259;
        z = pos 580;
        anchor_y = some 110;
        label_y = none;
        color = none;
      }
      ∷ [];
  steps =
      (step "Agent" "Scan the disks, not just the ports"
        "A network scan sees what a server serves. The agent sees what sits on its disks: PEM and DER files, PKCS#12, Java keystores through keytool, the Windows stores. It reads public certificates, and for private key files only the path, owner and mode."
        "certadillo agent scan --api-key-file /etc/certadillo/agent.key \\\n  --password-file /etc/certadillo/keystore-passwords\n\n/etc/nginx/tls/www.crt           pem\n/opt/tomcat/conf/keystore.jks    jks (keytool, password via env)\n/opt/legacy/server.key           key file: mode 0644, owner root"
        (record (move "host" "host" "walk /etc, /opt, /srv") {
          effect = some Effect.check;
          local = true;
        }
          ∷ []))
      ∷ (step "Agent" "The report carries no key material"
          "The agent posts certificates and key file metadata with a key that has the agent role: it can post reports and read nothing else. The certificates land in the inventory as source agent, location host:/path."
          "POST /api/v1/discovery/agent-report   (role: agent)\n{\"host\": \"app01\",\n \"certificates\": [{\"path\": \"/etc/nginx/tls/www.crt\", \"format\": \"pem\", \"pem\": \"...\"}],\n \"key_files\": [{\"path\": \"/opt/legacy/server.key\", \"mode\": \"0o644\",\n                \"owner\": \"root\", \"world_readable\": true}]}"
          ((move "host" "ra" "agent report")
            ∷ record (move "ra" "db" "source agent") {
              kind = some Kind.response;
              effect = some Effect.store;
            }
            ∷ []))
      ∷ (step "Agent" "A key every user can read"
          "/opt/legacy/server.key is mode 0644. That opens a PrivateKeyExposed finding and a critical alert to the team that owns the host. The next report after chmod 600 closes it on its own."
          "finding key_readable  host:app01:/opt/legacy/server.key\nalert PrivateKeyExposed (critical): private key /opt/legacy/server.key is readable\n      by every user on the host (mode 0o644)\n\n# on app01\nchmod 600 /opt/legacy/server.key   -> next report closes the finding"
          (record (move "ra" "bell" "PrivateKeyExposed") {
            kind = some Kind.reject;
            effect = some Effect.burn;
            dilly = some worried;
          }
            ∷ (move "bell" "team" "critical")
            ∷ record (move "team" "host" "chmod 600") { effect = some Effect.check }
            ∷ []))
      ∷ (step "Cloud" "Cloud certificate stores on a schedule"
          "The server lists certificates in AWS ACM, Azure Key Vault and GCP Certificate Manager on its own schedule, with read-only credentials referenced from the policy file. Each one is de-duplicated by fingerprint and recorded with its ARN or resource id."
          "discovery.sources.acm: {type: aws-acm, regions: [us-east-1, us-west-2], interval_hours: 24}\n\naudit: discovery.source.run  acm  found 14, new 3\nlocation arn:aws:acm:us-east-1:111122223333:certificate/9f2e..."
          ((move "ra" "cloud" "list + describe (read-only)")
            ∷ record (move "cloud" "ra" "certificates") { kind = some Kind.response }
            ∷ record (move "ra" "db" "source cloud") {
              kind = some Kind.response;
              effect = some Effect.store;
            }
            ∷ []))
      ∷ (step "CT" "Watch the public logs for the bank's names"
          "Every publicly trusted certificate is logged in Certificate Transparency. Certadillo asks Cert Spotter for the bank's zones and matches each entry by serial against what it issued or already knows."
          "discovery.sources.ct: {type: ct, provider: certspotter,\n                       zones: [bank.example], interval_hours: 6}\n\nGET /v1/issuances?domain=bank.example&include_subdomains=true&expand=dns_names&expand=issuer&expand=cert"
          ((move "ra" "ct" "issuances for bank.example")
            ∷ record (move "ct" "ra" "entries") {
              kind = some Kind.response;
              effect = some Effect.check;
            }
            ∷ []))
      ∷ (step "CT" "A certificate nobody asked for"
          "One entry for promo.bank.example was issued by a public CA but never requested through Certadillo. That is an UnknownPublicCertificate finding: shadow IT at best, someone else holding a certificate for the bank's name at worst."
          "finding unknown_public_cert\n  promo.bank.example  issuer Sectigo  serial 00e1c4...\nalert UnknownPublicCertificate (warning)"
          (record (move "ra" "db" "finding") {
            kind = some Kind.response;
            effect = some Effect.store;
          }
            ∷ record (move "ra" "bell" "UnknownPublicCertificate") {
              kind = some Kind.reject;
              effect = some Effect.reject;
            }
            ∷ []))
      ∷ (step "CT" "Expected after all: acknowledged with a reason"
          "Marketing confirms an agency runs that site. The finding is acknowledged with a comment, which is audited, and the certificate stays in the inventory so its expiry is still tracked."
          "POST /api/v1/discovery/findings/12/acknowledge\n{\"comment\": \"Promo site run by the agency under contract MK-2291\"}"
          ((move "team" "ra" "acknowledge + reason")
            ∷ record (move "ra" "db" "audited") {
              kind = some Kind.response;
              effect = some Effect.store;
              dilly = some happy;
            }
            ∷ []))
      ∷ [];
}
