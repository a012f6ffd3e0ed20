-- ===== src/Scene/Data/Adcs.antt =====
-- The walkthrough `adcs` of kb-src/scenes-data.js, as it is registered there.
use certadillo.Prelude.{[], ◌∷◌, some, none}
use certadillo.Prelude.Int.{pos, negsuc}
use certadillo.Scene.Def.{Scene, Model, Kind, Effect, move, step}

abbrev pub adcs : Scene
adcs = record {
  id = "adcs";
  title = "Windows and AD CS";
  dilly = some "ra";
  chain_at = some "db";
  chain_offset = some (pos 120, pos 20);
  camera = some (record { theta = pos 32; phi = 110; radius = 2150 });
  platform_radius = none;
  actors =
      record {
        id = "operator";
        kind = Model.person;
        label = "PKI operator";
        sub = some "runs the audit";
        x = negsuc 219;
        z = pos 700;
        anchor_y = none;
        label_y = none;
        color = none;
      }
      ∷ record {
        id = "client";
        kind = Model.laptop;
        label = "Windows client";
        sub = some "smart-card logon";
        x = negsuc 719;
        z = pos 200;
        anchor_y = some 80;
        label_y = none;
        color = none;
      }
      ∷ record {
        id = "dc";
        kind = Model.server;
        label = "AD domain controller";
        sub = some "LDAP · templates · SIDs";
        x = negsuc 559;
        z = negsuc 379;
        anchor_y = some 110;
        label_y = none;
        color = none;
      }
      ∷ record {
        id = "ra";
        kind = Model.shield;
        label = "Certadillo RA";
        sub = some "scope · policy · SID lookup";
        x = pos 40;
        z = negsuc 39;
        anchor_y = some 140;
        label_y = none;
        color = none;
      }
      ∷ record {
        id = "gw";
        kind = Model.gateway;
        label = "Gateway worker";
        sub = some "domain-joined · certreq";
        x = pos 360;
        z = negsuc 459;
        anchor_y = some 120;
        label_y = none;
        color = none;
      }
      ∷ record {
        id = "msca";
        kind = Model.ca;
        label = "Microsoft AD CS";
        sub = some "enterprise CA";
        x = pos 700;
        z = negsuc 39;
        anchor_y = some 160;
        label_y = some 300;
        color = none;
      }
      ∷ record {
        id = "ca";
        kind = Model.ca;
        label = "Certadillo CA";
        sub = some "windows-logon";
        x = pos 660;
        z = pos 380;
        anchor_y = some 120;
        label_y = some 240;
        color = none;
      }
      ∷ record {
        id = "db";
        kind = Model.db;
        label = "Inventory + audit";
        sub = some "findings · certificates";
        x = pos 220;
        z = pos 580;
        anchor_y = some 110;
        label_y = none;
        color = none;
      }
      ∷ [];
  steps =
      (step "Audit" "Read the templates"
        "Certadillo reads the AD CS templates and CA configuration over an ordinary LDAP bind (or an offline export). It is read-only: it never enrolls or edits anything, it only grades what it finds."
        "certadillo adcs audit\n# or POST /api/v1/adcs/audit/ldap\n\nreads CN=Certificate Templates,CN=Public Key Services,\n      CN=Services,CN=Configuration,DC=corp,DC=bank,DC=internal"
        ((move "ra" "dc" "LDAP search (templates, ACLs, OIDs)")
          ∷ record (move "dc" "ra" "template objects") { kind = some Kind.response }
          ∷ []))
      ∷ (step "Audit" "Flag the misconfigured template"
          "The 'VulnUser' template lets the enrollee choose the subject, allows client authentication, and any Domain User can enroll: ESC1. Certadillo records the finding and raises AdcsTemplateVulnerable so the AD team can fix it."
          "ESC1  critical  template 'VulnUser'\n  Enrollee supplies subject and template allows\n  client authentication.\n  principals: Domain Users"
          (record (move "ra" "db" "store finding · alert") {
            kind = some Kind.reject;
            effect = some Effect.reject;
          }
            ∷ []))
      ∷ (step "Logon" "Resolve the SID from the directory"
          "A Windows client asks for a smart-card logon certificate with a UPN otherName. The RA checks the UPN suffix is in the app scope, then looks the account's SID up in the directory. The SID is never taken from the request, the lookup fails closed, and a disabled account is refused."
          "CSR: SAN otherName UPN = alice@corp.bank.internal\n\nLDAP (&(objectClass=user)\n      (userPrincipalName=alice@corp.bank.internal))\n -> objectSid S-1-5-21-...-1104, enabled"
          ((move "client" "ra" "request windows-logon cert")
            ∷ (move "ra" "dc" "look up UPN -> SID")
            ∷ record (move "dc" "ra" "SID + account state") {
              kind = some Kind.response;
              effect = some Effect.check;
            }
            ∷ []))
      ∷ (step "Logon" "Issue with the SID security extension"
          "Certadillo signs the certificate with the UPN otherName and the SID security extension (szOID_NTDS_CA_SECURITY_EXT), so it passes strong certificate mapping under full KB5014754 enforcement. A sensitive account (adminCount=1) would first need a second approver."
          "leaf:\n  SAN: otherName UPN alice@corp.bank.internal\n  1.3.6.1.4.1.311.25.2: S-1-5-21-...-1104\n  EKU: clientAuth, smartcardLogon, pkinitClient"
          (record (move "ra" "ca" "sign logon certificate") { effect = some Effect.sign }
            ∷ record (move "ca" "db" "inventory + audit") {
              kind = some Kind.response;
              effect = some Effect.store;
            }
            ∷ record (move "ra" "client" "certificate") { kind = some Kind.response }
            ∷ []))
      ∷ (step "Gateway" "Hand an approved request to AD CS"
          "For a profile with issuer: adcs, Certadillo stays the RA but AD CS signs. The RA applies scope and policy, then queues a job. A domain-joined gateway worker claims it and submits to the Microsoft CA with certreq against the named template."
          "profile adcs-user (issuer: adcs)\n202 {\"status\": \"gateway_queued\", \"job_id\": 7}\n\ngateway: certreq -submit -config \"CA01\\Corp Issuing CA\"\n         -attrib \"CertificateTemplate:CertadilloUser\""
          (record (move "ra" "db" "queue job (scope checked)") { effect = some Effect.store }
            ∷ (move "gw" "ra" "claim pending jobs")
            ∷ record (move "gw" "msca" "certreq -submit") {
              kind = some Kind.secret;
              effect = some Effect.sign;
            }
            ∷ []))
      ∷ (step "Gateway" "Return the certificate to inventory"
          "The worker posts the issued certificate back. Certadillo ingests it with backend adcs and location adcs:<CA>, owned by the requesting app, so an AD CS certificate lands in the same inventory, alerting and reporting as everything else. Revocation and a CA-database inventory run the same way."
          "POST /api/v1/adcs/gateway/jobs/7/complete\n{\"certificate_pem\": \"-----BEGIN CERTIFICATE----- ...\"}\n\ninventory: backend=adcs, location=adcs:Corp Issuing CA"
          (record (move "gw" "ra" "post certificate back") { kind = some Kind.response }
            ∷ record (move "ra" "db" "ingest · owner = app") {
              kind = some Kind.response;
              effect = some Effect.store;
            }
            ∷ []))
      ∷ [];
}
