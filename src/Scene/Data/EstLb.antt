-- ===== src/Scene/Data/EstLb.antt =====
-- The walkthrough `estlb` of kb-src/scenes-data.js, as it is registered there.
use certadillo.Prelude.{[], ◌∷◌, some, none}
use certadillo.Prelude.Int.{pos, negsuc}
use certadillo.Scene.Def.{Scene, Model, Kind, Effect, happy, worried, move, step}

abbrev pub estlb : Scene
estlb = record {
  id = "estlb";
  title = "EST behind a load balancer";
  dilly = some "ra";
  chain_at = some "db";
  chain_offset = some (pos 120, pos 20);
  camera = some (record { theta = pos 25; phi = 110; radius = 2100 });
  platform_radius = none;
  actors =
      record {
        id = "device";
        kind = Model.router;
        label = "Branch router";
        sub = some "IDevID from the factory";
        x = negsuc 699;
        z = pos 200;
        anchor_y = some 50;
        label_y = some 170;
        color = none;
      }
      ∷ record {
        id = "mfr";
        kind = Model.ca;
        label = "Manufacturer CA";
        sub = some "Acme Devices IDevID";
        x = negsuc 599;
        z = negsuc 459;
        anchor_y = some 160;
        label_y = some 300;
        color = none;
      }
      ∷ record {
        id = "lb";
        kind = Model.gateway;
        label = "nginx / load balancer";
        sub = some "TLS + client cert";
        x = negsuc 239;
        z = pos 20;
        anchor_y = some 150;
        label_y = none;
        color = none;
      }
      ∷ record {
        id = "attacker";
        kind = Model.laptop;
        label = "Direct caller";
        sub = some "bypasses the LB";
        x = negsuc 239;
        z = pos 640;
        anchor_y = some 80;
        label_y = none;
        color = none;
      }
      ∷ record {
        id = "est";
        kind = Model.terminal;
        label = "Certadillo EST";
        sub = some "/.well-known/est";
        x = pos 160;
        z = pos 240;
        anchor_y = some 90;
        label_y = some 190;
        color = none;
      }
      ∷ record {
        id = "ra";
        kind = Model.shield;
        label = "RA + policy";
        sub = some "tls-client";
        x = pos 320;
        z = negsuc 379;
        anchor_y = some 120;
        label_y = none;
        color = none;
      }
      ∷ record {
        id = "ca";
        kind = Model.ca;
        label = "Issuing CA";
        sub = some "issuing-ca-1";
        x = pos 700;
        z = negsuc 59;
        anchor_y = some 160;
        label_y = some 300;
        color = none;
      }
      ∷ record {
        id = "db";
        kind = Model.db;
        label = "Inventory + audit";
        sub = none;
        x = pos 460;
        z = pos 520;
        anchor_y = some 110;
        label_y = none;
        color = none;
      }
      ∷ [];
  steps =
      (step "Setup" "Trust the manufacturer's CA for one app"
        "The router shipped with a manufacturer certificate (IDevID) and no shared secret. An operator registers the manufacturer's CA for the app branch-routers. For a production app this is an approval, since it lets every device from that factory enroll."
        "POST /api/v1/apps/7/est-trust-anchors\n{\"name\": \"acme-devices\", \"cert_pem\": \"-----BEGIN CERTIFICATE-----\\nMIIB...\"}\n\n202 {\"status\":\"pending_approval\",\"approval_id\":52}   (prod app)\n-> approved by a second person\naudit: est.trust_anchor.add {subject: \"CN=Acme Devices IDevID CA,O=Acme Devices\"}"
        (record (move "mfr" "ra" "CA certificate, via operator") { kind = some Kind.secret }
          ∷ record (move "ra" "db" "anchor for branch-routers") {
            kind = some Kind.response;
            effect = some Effect.store;
          }
          ∷ []))
      ∷ (step "Bootstrap" "TLS with the factory certificate"
          "The router connects to the load balancer and offers its IDevID during the TLS handshake. The handshake itself proves the router holds the IDevID key. nginx does not need to know the manufacturer; Certadillo decides whom to trust."
          "server {\n  listen 443 ssl;\n  ssl_verify_client optional_no_ca;\n  location /.well-known/est/ {\n    proxy_pass http://certadillo:8080;\n    proxy_set_header X-SSL-Client-Cert        $ssl_client_escaped_cert;\n    proxy_set_header X-Certadillo-Proxy-Auth  <shared secret>;\n  }\n}"
          (record (move "device" "lb" "TLS ClientHello + IDevID") { kind = some Kind.secret }
            ∷ record (move "lb" "device" "handshake OK") {
              kind = some Kind.response;
              effect = some Effect.check;
            }
            ∷ []))
      ∷ (step "Bootstrap" "Ask what to put in the CSR"
          "csrattrs answers from the app's profile: an EC P-256 key and ECDSA with SHA-256. The router generates its operational key accordingly."
          "GET /.well-known/est/csrattrs\n\n200 application/csrattrs\nSEQUENCE {\n  attribute id-ecPublicKey { secp256r1 }\n  oid ecdsa-with-SHA256\n}"
          ((move "device" "lb" "GET /csrattrs")
            ∷ (move "lb" "est" "forward + cert header")
            ∷ record (move "est" "device" "P-256, ECDSA-SHA256") { kind = some Kind.response }
            ∷ []))
      ∷ (step "Bootstrap" "Enroll with the IDevID"
          "nginx forwards the client certificate URL-encoded in a header, plus the shared secret. Certadillo believes the header only with that secret, finds that the IDevID chains to the registered manufacturer CA, and enrolls the CSR into branch-routers under the normal scope and policy."
          "POST /.well-known/est/simpleenroll\nX-SSL-Client-Cert: -----BEGIN%20CERTIFICATE-----%0AMIIB...\nX-Certadillo-Proxy-Auth: <secret>\n\nidentify: IDevID serialNumber=SN-451 -> anchor acme-devices -> app branch-routers\npolicy:   CN rtr-451.routers.bank.internal in *.routers.bank.internal, P-256\n200 application/pkcs7-mime"
          (record (move "device" "lb" "POST /simpleenroll") { sub = some "CSR" }
            ∷ (move "lb" "est" "CSR + IDevID header")
            ∷ record (move "est" "ra" "anchor + scope") {
              effect = some Effect.check;
              dilly = some happy;
            }
            ∷ record (move "ra" "ca" "sign") { effect = some Effect.sign }
            ∷ record (move "ca" "db" "audit: est.enroll auth=idevid") {
              kind = some Kind.response;
              effect = some Effect.store;
            }
            ∷ record (move "est" "device" "operational certificate") { kind = some Kind.response }
            ∷ []))
      ∷ (step "Renew" "Re-enroll with the certificate alone"
          "Later the router re-enrolls using its operational certificate for TLS and a CSR with a new key. No password is involved. RFC 7030 requires the same subject and names; the old certificate is superseded and stops authenticating."
          "POST /.well-known/est/simplereenroll\nX-SSL-Client-Cert: <rtr-451 certificate>\n\naudit: est.enroll {\"auth\":\"certificate\",\"reenroll\":true}\nold serial 3f9a...: superseded"
          ((move "device" "lb" "TLS with current cert")
            ∷ (move "lb" "est" "POST /simplereenroll")
            ∷ record (move "est" "ra" "same subject, new key") { effect = some Effect.check }
            ∷ record (move "ra" "ca" "sign") { effect = some Effect.sign }
            ∷ record (move "est" "device" "new certificate") { kind = some Kind.response }
            ∷ []))
      ∷ (step "Guard" "A forged header is ignored"
          "Someone who reaches Certadillo without going through the load balancer can type any header. Without the shared secret (or a trusted source address) the header is ignored and the request falls back to HTTP Basic, which it does not have."
          "POST /.well-known/est/simplereenroll\nX-SSL-Client-Cert: <someone else's certificate>\n\nlog: client certificate header ignored: request did not come through the trusted load balancer\n401 Unauthorized"
          (record (move "attacker" "est" "forged X-SSL-Client-Cert") { kind = some Kind.reject }
            ∷ record (move "est" "attacker" "401") {
              kind = some Kind.reject;
              effect = some Effect.reject;
              dilly = some worried;
            }
            ∷ []))
      ∷ (step "Keygen" "A sensor that cannot make a key"
          "For profiles with allow_server_keygen, serverkeygen creates the key on the server and returns it with the certificate as multipart/mixed over TLS. The key is not stored; the audit event says so. Anything that can generate its own key should."
          "POST /.well-known/est/serverkeygen\n\n200 multipart/mixed; boundary=est-4f1c...\n--est-4f1c...\nContent-Type: application/pkcs8\n\nMIGHAgEAMBMGByqGSM49AgEGCCqGSM49AwEHBG0wawIBAQQg...\n--est-4f1c...\nContent-Type: application/pkcs7-mime; smime-type=certs-only\n\nMIIC...\n--est-4f1c...--\n\naudit: est.serverkeygen {\"key\":\"ec-256\",\"stored\":false}"
          ((move "device" "lb" "POST /serverkeygen")
            ∷ (move "lb" "est" "forward")
            ∷ record (move "est" "ca" "new key + certificate") { effect = some Effect.sign }
            ∷ record (move "est" "device" "PKCS#8 + certificate") { kind = some Kind.secret }
            ∷ []))
      ∷ [];
}
