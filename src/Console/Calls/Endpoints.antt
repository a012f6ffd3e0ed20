-- ===== src/Console/Calls/Endpoints.antt =====
-- Which endpoint of the API a call of console.js reaches.
use certadillo.Prelude.{ℕ, ◌≡◌, String, List, [], ◌∷◌, ◌++◌, some, codes, ◌==◌, if◌then◌else◌, All}
use certadillo.Markup.{Text}
use certadillo.Console.Encode.{encode_component}
use certadillo.Console.Encode.Units.{IsInside}
use certadillo.Console.Calls.{
  Action, make_team, make_app, show_app, make_credentials, make_eab, revoke, approve, reject, scan,
  acknowledge, run_source, make_target, make_installation, push, show_installation, save_folder,
  make_folder, move_app, show_policy, make_signing_key, set_owner,
}

-- A part of a path: a word of the API, or what a text is encoded as.
pub data Part : Type 0 where
  fixed : String → Part
  encoded : Text → Part

pub record Endpoint : Type 0 where
  pub method : String
  pub parts : List Part

abbrev words_of : List String → List Part
words_of [] = []
words_of (w ∷ ws) = fixed w ∷ words_of ws

abbrev under : List String → List Part → List Part
under ws parts = fixed "" ∷ fixed "api" ∷ fixed "v1" ∷ (words_of ws ++ parts)

abbrev pub endpoint : Action → Endpoint
endpoint (show_app id) = record { method = "GET"; parts = under ("apps" ∷ []) (encoded id ∷ []) }
endpoint (make_credentials id) = record {
  method = "POST";
  parts = under ("apps" ∷ []) (encoded id ∷ fixed "credentials" ∷ []);
}
endpoint (make_eab id) = record {
  method = "POST";
  parts = under ("apps" ∷ []) (encoded id ∷ fixed "acme-eab" ∷ []);
}
endpoint (revoke id _ _) = record {
  method = "POST";
  parts = under ("certificates" ∷ []) (encoded id ∷ fixed "revoke" ∷ []);
}
endpoint (approve id) = record {
  method = "POST";
  parts = under ("approvals" ∷ []) (encoded id ∷ fixed "approve" ∷ []);
}
endpoint (reject id) = record {
  method = "POST";
  parts = under ("approvals" ∷ []) (encoded id ∷ fixed "reject" ∷ []);
}
endpoint (acknowledge id _) = record {
  method = "POST";
  parts = under ("discovery" ∷ "findings" ∷ []) (encoded id ∷ fixed "acknowledge" ∷ []);
}
endpoint (run_source name) = record {
  method = "POST";
  parts = under ("discovery" ∷ "sources" ∷ []) (encoded name ∷ fixed "run" ∷ []);
}
endpoint (push id) = record {
  method = "POST";
  parts = under ("installations" ∷ []) (encoded id ∷ fixed "provision" ∷ []);
}
endpoint (show_installation id) = record {
  method = "GET";
  parts = under ("installations" ∷ []) (encoded id ∷ []);
}
endpoint (save_folder id _) = record {
  method = "PUT";
  parts = under ("folders" ∷ []) (encoded id ∷ fixed "settings" ∷ []);
}
endpoint (move_app id _) = record {
  method = "POST";
  parts = under ("apps" ∷ []) (encoded id ∷ fixed "move" ∷ []);
}
endpoint (show_policy id) = record {
  method = "GET";
  parts = under ("apps" ∷ []) (encoded id ∷ fixed "policy" ∷ []);
}
endpoint (set_owner id _ _) = record {
  method = "PUT";
  parts = under ("ssh-keys" ∷ []) (encoded id ∷ fixed "owner" ∷ []);
}
endpoint (make_team _ _ _ _ _) = record { method = "POST"; parts = under ("teams" ∷ []) [] }
endpoint (make_app _ _ _ _ _ _) = record { method = "POST"; parts = under ("apps" ∷ []) [] }
endpoint (scan _) = record { method = "POST"; parts = under ("discovery" ∷ "scan" ∷ []) [] }
endpoint (make_target _ _ _ _ _) = record { method = "POST"; parts = under ("targets" ∷ []) [] }
endpoint (make_installation _ _ _ _ _ _ _ _ _) = record {
  method = "POST";
  parts = under ("installations" ∷ []) [];
}
endpoint (make_folder _ _ _) = record { method = "POST"; parts = under ("folders" ∷ []) [] }
endpoint (make_signing_key _ _ _ _) = record {
  method = "POST";
  parts = under ("signing" ∷ "keys" ∷ []) [];
}

-- The text that stands in the path, if one does.
abbrev pub id_of : Action → Text
id_of (show_app id) = id
id_of (make_credentials id) = id
id_of (make_eab id) = id
id_of (revoke id _ _) = id
id_of (approve id) = id
id_of (reject id) = id
id_of (acknowledge id _) = id
id_of (run_source name) = name
id_of (push id) = id
id_of (show_installation id) = id
id_of (save_folder id _) = id
id_of (move_app id _) = id
id_of (show_policy id) = id
id_of (set_owner id _ _) = id
id_of (make_team _ _ _ _ _) = []
id_of (make_app _ _ _ _ _ _) = []
id_of (scan _) = []
id_of (make_target _ _ _ _ _) = []
id_of (make_installation _ _ _ _ _ _ _ _ _) = []
id_of (make_folder _ _ _) = []
id_of (make_signing_key _ _ _ _) = []

abbrev push_unit : ℕ → List Text → List Text
push_unit c [] = (c ∷ []) ∷ []
push_unit c (w ∷ ws) = (c ∷ w) ∷ ws

-- A path split at each `/`.
unfoldable pub segments : Text → List Text
segments [] = [] ∷ []
segments (c ∷ t) = let rest = segments t in if c == b'/' then [] ∷ rest else push_unit c rest

-- The segments are those parts; no unit of an encoded text ends a segment, the path or the query.
abbrev pub Matches : List Part → List Text → Type 0
Matches [] [] = Unit
Matches (fixed w ∷ parts) (s ∷ ss) = (s ≡ codes w) × Matches parts ss
Matches (encoded t ∷ parts) (s ∷ ss) =
    (encode_component t ≡ some s) × All IsInside s × Matches parts ss
Matches _ _ = ⊥
