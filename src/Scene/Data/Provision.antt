-- ===== src/Scene/Data/Provision.antt =====
-- The walkthrough `provision` of kb-src/scenes-data.js, as it is registered there.
use certadillo.Prelude.{[], ◌∷◌, some, none}
use certadillo.Prelude.Int.{pos, negsuc}
use certadillo.Scene.Def.{Scene, Model, Kind, Effect, happy, worried, move, step}

abbrev pub provision : Scene
provision = record {
  id = "provision";
  title = "Push provisioning";
  dilly = some "ra";
  chain_at = some "db";
  chain_offset = some (pos 120, pos 20);
  camera = some (record { theta = pos 30; phi = 110; radius = 2150 });
  platform_radius = none;
  actors =
      record {
        id = "admin";
        kind = Model.person;
        label = "PKI admin";
        sub = some "registers targets";
        x = negsuc 239;
        z = pos 700;
        anchor_y = none;
        label_y = none;
        color = none;
      }
      ∷ record {
        id = "vault";
        kind = Model.hsm;
        label = "Vault KV";
        sub = some "SSH key · F5 password";
        x = negsuc 719;
        z = pos 420;
        anchor_y = some 60;
        label_y = some 150;
        color = none;
      }
      ∷ record {
        id = "engine";
        kind = Model.gateway;
        label = "Provisioning engine";
        sub = some "scheduler · drivers";
        x = negsuc 159;
        z = pos 40;
        anchor_y = some 150;
        label_y = none;
        color = none;
      }
      ∷ record {
        id = "ra";
        kind = Model.shield;
        label = "RA + policy";
        sub = some "the app's own rules";
        x = pos 300;
        z = negsuc 379;
        anchor_y = some 120;
        label_y = none;
        color = none;
      }
      ∷ record {
        id = "ca";
        kind = Model.ca;
        label = "Issuing CA";
        sub = some "issuing-ca-1";
        x = pos 700;
        z = pos 20;
        anchor_y = some 160;
        label_y = some 300;
        color = none;
      }
      ∷ record {
        id = "web";
        kind = Model.server;
        label = "web1 (nginx)";
        sub = some "SSH · host key pinned";
        x = negsuc 679;
        z = negsuc 259;
        anchor_y = some 110;
        label_y = none;
        color = none;
      }
      ∷ record {
        id = "f5";
        kind = Model.router;
        label = "F5 BIG-IP";
        sub = some "client-SSL profile";
        x = negsuc 259;
        z = negsuc 639;
        anchor_y = some 80;
        label_y = none;
        color = none;
      }
      ∷ record {
        id = "db";
        kind = Model.db;
        label = "Inventory + audit";
        sub = some "runs · installations";
        x = pos 260;
        z = pos 580;
        anchor_y = some 110;
        label_y = none;
        color = none;
      }
      ∷ [];
  steps =
      (step "Setup" "A target holds a reference, never a secret"
        "The admin registers web1 as an SSH target. The host key comes from the server ahead of time and is pinned, files may only go under /etc/nginx/tls, and the reload command is fixed by the admin. The SSH key itself stays in Vault; the target only names where it lives."
        "POST /api/v1/targets\n{\"name\": \"web1\", \"kind\": \"ssh\", \"team_id\": 1,\n \"config\": {\"host\": \"web1.pay.bank.internal\", \"username\": \"certadillo\",\n            \"host_key\": \"ssh-ed25519 AAAAC3Nz...\",\n            \"allowed_dirs\": [\"/etc/nginx/tls\"],\n            \"reload_command\": \"sudo systemctl reload nginx\"},\n \"credential_ref\": \"vault:secret/data/certadillo/web1#ssh_key\"}\n\n201  (sealed: a later SQL edit to host or paths stops every run)"
        ((move "admin" "engine" "POST /targets")
          ∷ record (move "engine" "db" "target, sealed") {
            kind = some Kind.response;
            effect = some Effect.store;
          }
          ∷ []))
      ∷ (step "Setup" "An installation: what to keep where"
          "The installation ties an app to the target: the name, where the files go, and the endpoint to check afterwards. With key_location device, the host makes the key itself and only a CSR ever leaves it."
          "POST /api/v1/installations\n{\"app_id\": 1, \"target_id\": 1, \"common_name\": \"www.pay.bank.internal\",\n \"key_location\": \"device\",\n \"params\": {\"cert_path\": \"/etc/nginx/tls/www.crt\",\n            \"key_path\": \"/etc/nginx/tls/www.key\"},\n \"validate_endpoint\": \"web1.pay.bank.internal:443\"}"
          ((move "admin" "engine" "POST /installations")
            ∷ record (move "engine" "db" "installation") {
              kind = some Kind.response;
              effect = some Effect.store;
            }
            ∷ []))
      ∷ (step "Run" "Connect, and make the key on the host"
          "When a run starts the engine resolves the credential from Vault, connects to web1 and refuses if the host key does not match the pinned one. openssl on the host generates the new key next to the live one and returns a CSR."
          "credential_ref -> Vault KV read (token never stored)\nssh certadillo@web1.pay.bank.internal   host key: matches pin\nopenssl req -new -newkey ec -pkeyopt ec_paramgen_curve:P-256 \\\n  -keyout /etc/nginx/tls/www.key.new -subj /CN=www.pay.bank.internal\n\nstep: the target generated a ec-p256 key and returned a CSR"
          (record (move "engine" "vault" "read ssh_key") { kind = some Kind.secret }
            ∷ record (move "vault" "engine" "key (memory only)") {
              kind = some Kind.secret;
              effect = some Effect.unlock;
            }
            ∷ record (move "engine" "web" "SSH, pinned host key") { effect = some Effect.check }
            ∷ record (move "web" "engine" "CSR") { kind = some Kind.response }
            ∷ []))
      ∷ (step "Run" "Issue under the app's policy"
          "Push provisioning does not bypass anything. The CSR goes through the same RA as any other request: the app's scope, its profile, its policy folder. A name outside the app's scope would be refused here, before anything touches the server."
          "policy: www.pay.bank.internal in scope *.pay.bank.internal   ok\nprofile tls-server, 90 days, folder \\Bank\\Payments: max 30 days -> 30 days\nstep: issued serial 4f1c9a..."
          ((move "engine" "ra" "CSR for app 1")
            ∷ record (move "ra" "ca" "sign") { effect = some Effect.sign; dilly = some happy }
            ∷ record (move "ca" "engine" "certificate + chain") { kind = some Kind.response }
            ∷ []))
      ∷ (step "Run" "Install, reload, and check it is really served"
          "The certificate is written, the new key swapped in, and nginx reloaded. Then the engine opens TLS connections to web1:443 with the name as SNI and needs three in a row to present the new certificate, because old workers keep serving for a moment after a graceful reload."
          "step: wrote /etc/nginx/tls/www.crt\nstep: activated device key /etc/nginx/tls/www.key\nstep: ran the target's reload command\nTLS web1:443 SNI www.pay.bank.internal  x3  sha256 = new fingerprint\nstep: web1.pay.bank.internal:443 serves the new certificate\nstep: superseded serial 2b07e1..."
          ((move "engine" "web" "write + reload")
            ∷ record (move "engine" "web" "TLS x3: new cert?") { effect = some Effect.check }
            ∷ record (move "engine" "db" "audit: provisioning.run") {
              kind = some Kind.response;
              effect = some Effect.store;
            }
            ∷ []))
      ∷ (step "F5" "A load balancer, switched last"
          "On the F5 the key is made in Certadillo's memory, pushed with the certificate and chain as new serial-named objects, and the client-SSL profile switched to them only at the end. The old objects stay for rollback. The key is dropped from memory once the push is done."
          "step: generated a ec-p256 key in memory\nstep: issued serial 7d22b0...\nstep: installed cdl-7d22b0.key/.crt/-chain.crt in /Payments\nstep: switched client-ssl profile www_clientssl to cdl-7d22b0"
          (record (move "engine" "ra" "issue (central key)") { effect = some Effect.sign }
            ∷ record (move "engine" "f5" "key + cert + chain") { kind = some Kind.secret }
            ∷ record (move "engine" "f5" "switch profile") { effect = some Effect.check }
            ∷ []))
      ∷ (step "Failure" "A push that fails is not left lying around"
          "If the F5 refuses the upload after the certificate was issued, nobody holds that key any more. The engine revokes the undelivered certificate straight away, backs off before retrying, and after three failures the ProvisioningFailed alert turns critical for the owning team."
          "F5 iControl: 401 Unauthorized\nstep: revoked undelivered serial 91ac3e...\ninstallation 2: failures 3, next attempt in 4h\nalert ProvisioningFailed (critical) -> team payments"
          (record (move "f5" "engine" "401") {
            kind = some Kind.reject;
            effect = some Effect.reject;
            dilly = some worried;
          }
            ∷ record (move "engine" "ca" "revoke undelivered") {
              kind = some Kind.secret;
              effect = some Effect.burn;
            }
            ∷ record (move "engine" "db" "run failed · alert") {
              kind = some Kind.response;
              effect = some Effect.store;
            }
            ∷ []))
      ∷ [];
}
