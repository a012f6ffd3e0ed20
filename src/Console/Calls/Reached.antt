-- ===== src/Console/Calls/Reached.antt =====
-- The calls of console.js and the endpoints that they reach.
use certadillo.Prelude.{
  ◌≡◌, refl, ap, ◌∙◌, sym, subst, ◌⊎◌, inl, inr, String, Bool, false, List, [], ◌∷◌, ◌++◌, some,
  codes, ◌==◌, All, arith, Bool-cases,
}
use certadillo.Words.{trim}
use certadillo.Markup.{Text}
use certadillo.Console.Cells.{is_set}
use certadillo.Console.Encode.{is_unreserved, encode_component}
use certadillo.Console.Encode.Units.{IsInside, WellFormed, encode_component_lem}
use certadillo.Console.Requests.{
  Call, Prepared, ready, not_object, Json, parsed, empty, with_id, with_object,
}
use certadillo.Console.Calls.{
  Action, make_team, make_app, show_app, make_credentials, make_eab, revoke, approve, reject, scan,
  acknowledge, run_source, make_target, make_installation, push, show_installation, save_folder,
  make_folder, move_app, show_policy, make_signing_key, set_owner, call_of,
}
use certadillo.Console.Calls.Endpoints.{
  fixed, encoded, Endpoint, endpoint, id_of, segments, Matches,
}

segments_inside : (e t : Text) → All IsInside e → segments (e ++ b'/' ∷ t) ≡ e ∷ segments t
unfolding segments is_unreserved
segments_inside [] t h = refl
segments_inside (c ∷ e) t (h, hs) =
    let apart : (c == b'/') ≡ false = ground arith in rw (apart, segments_inside e t hs) refl

segments_last : (e : Text) → All IsInside e → segments (e ++ []) ≡ e ∷ []
unfolding segments is_unreserved
segments_last [] h = refl
segments_last (c ∷ e) (h, hs) =
    let apart : (c == b'/') ≡ false = ground arith in rw (apart, segments_last e hs) refl

tail_inside :
    (t e : Text) (w : String)
    → encode_component t ≡ some e
    → All IsInside e
    → segments (codes w) ≡ codes w ∷ []
    → Matches (encoded t ∷ fixed w ∷ []) (segments (e ++ b'/' ∷ codes w))
tail_inside t e w h k s =
    subst (Matches (encoded t ∷ fixed w ∷ []))
      (sym (segments_inside e (codes w) k ∙ ap (λ ss. e ∷ ss) s)) (h, k, (refl, tt))

tail_last :
    (t e : Text)
    → encode_component t ≡ some e
    → All IsInside e
    → Matches (encoded t ∷ []) (segments (e ++ []))
tail_last t e h k = subst (Matches (encoded t ∷ [])) (sym (segments_last e k)) (h, k, tt)

-- The call is made, with the method and the path of the endpoint; or the text of a form says no object,
-- and nothing is sent.
abbrev pub Reaches : Endpoint → Prepared → Type 0
Reaches ep p =
    ((c : Call) × (p ≡ ready c) × (c.method ≡ ep.method) × Matches ep.parts (segments c.path))
    ⊎ ((what : String) × (p ≡ not_object what))

named :
    (ep : Endpoint) (id : Text) (before after : String) (body : List (String × Json))
    → WellFormed id
    → ((e : Text)
        → encode_component id ≡ some e
        → All IsInside e
        → Matches ep.parts (segments (codes before ++ (e ++ codes after))))
    → Reaches ep (with_id (encode_component id) ep.method before after body)
named ep id before after body w h =
    let (e, ee, k) = encode_component_lem id w in
    inl (
      record { method = ep.method; path = codes before ++ (e ++ codes after); body = body },
      rw ee refl,
      refl,
      h e ee k,
    )

with_object-Reaches :
    (ep : Endpoint) (is_object : Text → Bool) (what : String) (t : Text) (k : Json → Prepared)
    → ((j : Json) → Reaches ep (k j))
    → Reaches ep (with_object is_object what t k)
unfolding with_object
with_object-Reaches ep is_object what t k h = elim (Bool-cases (is_set (trim t))) [
  | inl s ↦ elim (Bool-cases (is_object t)) [
    | inl o ↦ rw (s, o) (h (parsed t))
    | inr o ↦ rw (s, o) (inr (what, refl))
  ]
  | inr s ↦ rw s (h empty)
]

module _ (is_object : Text → Bool) where
  -- Every action makes its call with the method of its endpoint, at the segments of its endpoint, with
  -- whatever text stands in the path encoded as one segment of it, if that text has no half of a
  -- surrogate pair that stands alone. A form whose text says no object sends nothing.
  pub call_of-Reaches :
      (a : Action) → WellFormed (id_of a) → Reaches (endpoint a) (call_of is_object a)
  unfolding call_of segments
  call_of-Reaches (show_app id) w =
      named (endpoint (show_app id)) id "/api/v1/apps/" "" _ w
        (λ e h k. (refl, (refl, (refl, (refl, tail_last id e h k)))))
  call_of-Reaches (make_credentials id) w =
      named (endpoint (make_credentials id)) id "/api/v1/apps/" "/credentials" _ w
        (λ e h k. (refl, (refl, (refl, (refl, tail_inside id e "credentials" h k refl)))))
  call_of-Reaches (make_eab id) w =
      named (endpoint (make_eab id)) id "/api/v1/apps/" "/acme-eab" _ w
        (λ e h k. (refl, (refl, (refl, (refl, tail_inside id e "acme-eab" h k refl)))))
  call_of-Reaches (revoke id reason ticket) w =
      named (endpoint (revoke id reason ticket)) id "/api/v1/certificates/" "/revoke" _ w
        (λ e h k. (refl, (refl, (refl, (refl, tail_inside id e "revoke" h k refl)))))
  call_of-Reaches (approve id) w =
      named (endpoint (approve id)) id "/api/v1/approvals/" "/approve" _ w
        (λ e h k. (refl, (refl, (refl, (refl, tail_inside id e "approve" h k refl)))))
  call_of-Reaches (reject id) w =
      named (endpoint (reject id)) id "/api/v1/approvals/" "/reject" _ w
        (λ e h k. (refl, (refl, (refl, (refl, tail_inside id e "reject" h k refl)))))
  call_of-Reaches (acknowledge id comment) w =
      named (endpoint (acknowledge id comment)) id "/api/v1/discovery/findings/" "/acknowledge" _ w
        (λ e h k. (refl, (refl, (refl, (refl, (refl, tail_inside id e "acknowledge" h k refl))))))
  call_of-Reaches (run_source name) w =
      named (endpoint (run_source name)) name "/api/v1/discovery/sources/" "/run" _ w
        (λ e h k. (refl, (refl, (refl, (refl, (refl, tail_inside name e "run" h k refl))))))
  call_of-Reaches (push id) w =
      named (endpoint (push id)) id "/api/v1/installations/" "/provision" _ w
        (λ e h k. (refl, (refl, (refl, (refl, tail_inside id e "provision" h k refl)))))
  call_of-Reaches (show_installation id) w =
      named (endpoint (show_installation id)) id "/api/v1/installations/" "" _ w
        (λ e h k. (refl, (refl, (refl, (refl, tail_last id e h k)))))
  call_of-Reaches (save_folder id settings) w =
      named (endpoint (save_folder id settings)) id "/api/v1/folders/" "/settings" _ w
        (λ e h k. (refl, (refl, (refl, (refl, tail_inside id e "settings" h k refl)))))
  call_of-Reaches (move_app id folder) w =
      named (endpoint (move_app id folder)) id "/api/v1/apps/" "/move" _ w
        (λ e h k. (refl, (refl, (refl, (refl, tail_inside id e "move" h k refl)))))
  call_of-Reaches (show_policy id) w =
      named (endpoint (show_policy id)) id "/api/v1/apps/" "/policy" _ w
        (λ e h k. (refl, (refl, (refl, (refl, tail_inside id e "policy" h k refl)))))
  call_of-Reaches (set_owner id owner note) w =
      named (endpoint (set_owner id owner note)) id "/api/v1/ssh-keys/" "/owner" _ w
        (λ e h k. (refl, (refl, (refl, (refl, tail_inside id e "owner" h k refl)))))
  call_of-Reaches (make_team name email chat hook cost_center) w =
      inl (_, refl, refl, (refl, (refl, (refl, (refl, tt)))))
  call_of-Reaches (make_app team name environment profile class domains) w =
      inl (_, refl, refl, (refl, (refl, (refl, (refl, tt)))))
  call_of-Reaches (scan targets) w = inl (_, refl, refl, (refl, (refl, (refl, (refl, (refl, tt))))))
  call_of-Reaches (make_folder name parent settings) w =
      inl (_, refl, refl, (refl, (refl, (refl, (refl, tt)))))
  call_of-Reaches (make_signing_key name app purpose alg) w =
      inl (_, refl, refl, (refl, (refl, (refl, (refl, (refl, tt))))))
  call_of-Reaches (make_target name kind team config credential) w =
      with_object-Reaches (endpoint (make_target name kind team config credential)) is_object _ _ _
        (λ j. inl (_, refl, refl, (refl, (refl, (refl, (refl, tt))))))
  call_of-Reaches
        (make_installation app target common_name sans key_type key_location params endpoint_text
          auto_renew)
        w =
      with_object-Reaches
        (endpoint (
          make_installation app target common_name sans key_type key_location params endpoint_text
            auto_renew))
        is_object _ _ _ (λ j. inl (_, refl, refl, (refl, (refl, (refl, (refl, tt))))))
