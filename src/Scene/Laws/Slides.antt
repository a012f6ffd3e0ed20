-- ===== src/Scene/Laws/Slides.antt =====
-- A slide show: what a reader of kb-src/scenes-engine.js may expect of a walkthrough, told with
-- nothing but the step and whether it plays.
use certadillo.Prelude.{
  ℕ, ◌+◌, ◌-◌, ◌≤◌, ◌<◌, min, ◌≡◌, refl, Bool, true, false, List, [], ◌∷◌, length, All, leb, arith,
  if◌then◌else◌, ap, ◌∙◌,
}
use certadillo.Scene.Input.{
  Event, frame_at, click_play, click_next, click_prev, click_restart, choose_speed, click_step,
  click_zoom, pointer_down, pointer_move, pointer_up, double_click, arrow_right, arrow_left,
  resize_to, intersect,
}

pub record Slides : Type 0 where
  pub at : ℕ
  pub playing : Bool

-- The events that only turn the camera, change the speed or fit the stage.
abbrev pub is_aside : Event → Bool
is_aside (choose_speed _) = true
is_aside (click_zoom _) = true
is_aside (pointer_down _ _) = true
is_aside (pointer_move _ _) = true
is_aside pointer_up = true
is_aside double_click = true
is_aside (resize_to _) = true
is_aside (intersect _) = true
is_aside _ = false

-- Behind the last of `n` steps the first one follows.
abbrev pub after : ℕ → ℕ → ℕ
after n i = if leb n (i + 1) then 0 else i + 1

-- What each event may do to a show of `n` steps. Only a frame, "Play" and "Restart" have a choice:
-- whether the step has been read, and whether its moves are still running.
pub data Turns (n : ℕ) : Event → Slides → Slides → Type 0 where
  stays : {e : Event} {s : Slides} → is_aside e ≡ true → Turns n e s s
  waits : (now : ℕ) (hidden : Bool) {s : Slides} → Turns n (frame_at now hidden) s s
  turns :
      (now : ℕ) (hidden : Bool) {i : ℕ}
      → i + 1 < n
      → Turns n
          (frame_at now hidden)
          (record { at = i; playing = true })
          (record { at = i + 1; playing = true })
  ends :
      (now : ℕ) (hidden : Bool) {i : ℕ}
      → n ≤ i + 1
      → Turns n
          (frame_at now hidden)
          (record { at = i; playing = true })
          (record { at = i; playing = false })
  pauses :
      {i : ℕ}
      → Turns n click_play (record { at = i; playing = true }) (record { at = i; playing = false })
  resumes :
      {i : ℕ}
      → Turns n click_play (record { at = i; playing = false }) (record { at = i; playing = true })
  plays :
      {i : ℕ}
      → Turns n click_play
          (record { at = i; playing = false })
          (record { at = after n i; playing = true })
  next :
      {s : Slides} → Turns n click_next s (record { at = min (s.at + 1) (n - 1); playing = false })
  prev : {s : Slides} → Turns n click_prev s (record { at = s.at - 1; playing = false })
  restarts : {s : Slides} → Turns n click_restart s (record { at = 0; playing = true })
  restarts_on : {s : Slides} → Turns n click_restart s (record { at = after n 0; playing = true })
  chooses :
      {i : ℕ} {s : Slides} → i < n → Turns n (click_step i) s (record { at = i; playing = false })
  misses : {i : ℕ} {s : Slides} → n ≤ i → Turns n (click_step i) s s
  right :
      {s : Slides}
      → Turns n arrow_right s (record { at = min (s.at + 1) (n - 1); playing = s.playing })
  left : {s : Slides} → Turns n arrow_left s (record { at = s.at - 1; playing = s.playing })

-- Events one after the other.
pub data Course (n : ℕ) : List Event → Slides → Slides → Type 0 where
  stop : {s : Slides} → Course n [] s s
  go_on :
      {e : Event} {es : List Event} {s t u : Slides}
      → Turns n e s t
      → Course n es t u
      → Course n (e ∷ es) s u

abbrev pub is_frame : Event → Bool
is_frame (frame_at _ _) = true
is_frame _ = false

-- Where frames alone lead to: no step back, at most one on for each frame, none unless it plays.
pub record Frames (n k : ℕ) (s t : Slides) : Type 0 where
  pub low : s.at ≤ t.at
  pub high : t.at ≤ s.at + k
  pub inside : s.at < n → t.at < n
  pub still : s.playing ≡ false → t ≡ s

frame_no_aside : (e : Event) → is_aside e ≡ true → is_frame e ≡ true → ⊥
frame_no_aside (frame_at now hidden) h k = cc
frame_no_aside click_play h k = cc
frame_no_aside click_next h k = cc
frame_no_aside click_prev h k = cc
frame_no_aside click_restart h k = cc
frame_no_aside (choose_speed s) h k = cc
frame_no_aside (click_step i) h k = cc
frame_no_aside (click_zoom c) h k = cc
frame_no_aside (pointer_down x y) h k = cc
frame_no_aside (pointer_move x y) h k = cc
frame_no_aside pointer_up h k = cc
frame_no_aside double_click h k = cc
frame_no_aside arrow_right h k = cc
frame_no_aside arrow_left h k = cc
frame_no_aside (resize_to w) h k = cc
frame_no_aside (intersect c) h k = cc

Frames-refl : (n k : ℕ) (s : Slides) → Frames n k s s
Frames-refl n k s = record {
  low = omega arith;
  high = omega arith;
  inside = λ h. h;
  still = λ h. refl;
}

Turns-Frames :
    {n : ℕ} {e : Event} {s t : Slides} → Turns n e s t → is_frame e ≡ true → Frames n 1 s t
Turns-Frames {e} (stays a) h = absurd (frame_no_aside e a h)
Turns-Frames {s} (waits now hidden) h = Frames-refl _ 1 s
Turns-Frames (turns now hidden l) h = record {
  low = omega arith;
  high = omega arith;
  inside = λ k. l;
  still = λ k. cc;
}
Turns-Frames (ends now hidden l) h = record {
  low = omega arith;
  high = omega arith;
  inside = λ k. k;
  still = λ k. cc;
}
Turns-Frames pauses h = cc
Turns-Frames resumes h = cc
Turns-Frames plays h = cc
Turns-Frames next h = cc
Turns-Frames prev h = cc
Turns-Frames restarts h = cc
Turns-Frames restarts_on h = cc
Turns-Frames (chooses l) h = cc
Turns-Frames (misses l) h = cc
Turns-Frames right h = cc
Turns-Frames left h = cc

pub Course-Frames :
    {n : ℕ} {es : List Event} {s t : Slides}
    → Course n es s t
    → All (λ e. is_frame e ≡ true) es
    → Frames n (length es) s t
Course-Frames {s} stop h = Frames-refl _ 0 s
Course-Frames (go_on t p) (h, hs) =
    let a = Turns-Frames t h in
    let b = Course-Frames p hs in
    record {
      low = omega (arith, a.low, b.low);
      high = omega (arith, a.high, b.high);
      inside = λ k. b.inside (a.inside k);
      still = λ k. b.still (ap (λ (x : Slides). x.playing) (a.still k) ∙ k) ∙ a.still k;
    }
