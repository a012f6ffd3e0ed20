-- ===== src/Scene/Def.antt =====
-- The shape of a walkthrough: kb-src/scenes-data.js, its object literals and the comment at its
-- head. Lengths and angles are in hundredths, which every literal of the file is a whole number of.
use certadillo.Prelude.{ℕ, String, Bool, false, List, Option, none}
use certadillo.Prelude.Int.{ℤ}

-- The keys of `MODELS` in scenes-engine.js.
pub data Model : Type 0 where
  laptop server gateway shield ca hsm db atm router cloud globe person bell chart radar : Model
  terminal k8s : Model

pub data Kind : Type 0 where
  request response secret reject local : Kind

pub data Effect : Type 0 where
  check sign hsm store reject burn unlock : Effect

-- Dilly's faces.
pub data Mood : Type 0 where
  happy worried rolled : Mood

-- Ids are no names of properties of Object.prototype.
pub record Actor : Type 0 where
  pub id : String
  pub kind : Model
  pub label : String
  pub sub : Option String
  pub x : ℤ
  pub z : ℤ
  pub anchor_y : Option ℕ
  pub label_y : Option ℕ
  pub color : Option ℕ

pub record Move : Type 0 where
  pub from : String
  pub to : String
  pub label : String
  pub sub : Option String
  pub kind : Option Kind
  pub effect : Option Effect
  pub dilly : Option Mood
  pub local : Bool
  pub dur : Option ℕ

-- `{ from, to, label }`, with every other property left out.
abbrev pub move : String → String → String → Move
move f t l = record {
  from = f;
  to = t;
  label = l;
  sub = none;
  kind = none;
  effect = none;
  dilly = none;
  local = false;
  dur = none;
}

pub record Step : Type 0 where
  pub phase : String
  pub title : String
  pub body : String
  pub payload : String
  pub moves : List Move
  pub effect : Option Effect
  pub dilly : Option Mood
  pub actor : Option String

-- A step with no effect, face or actor of its own, as all of scenes-data.js are.
abbrev pub step : String → String → String → String → List Move → Step
step ph ti bo pa ms = record {
  phase = ph;
  title = ti;
  body = bo;
  payload = pa;
  moves = ms;
  effect = none;
  dilly = none;
  actor = none;
}

pub record Camera : Type 0 where
  pub theta : ℤ
  pub phi : ℕ
  pub radius : ℕ

pub record Scene : Type 0 where
  pub id : String
  pub title : String
  pub dilly : Option String
  pub chain_at : Option String
  pub chain_offset : Option (ℤ × ℤ)
  pub camera : Option Camera
  pub platform_radius : Option ℕ
  pub actors : List Actor
  pub steps : List Step
