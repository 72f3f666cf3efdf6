-- ===== src/Particles/Agree.antt =====
-- The vector of structs and the struct of vectors, step by step.
use learn_cpp.Prelude.{ℕ, zero, suc, ◌≡◌, refl, ap, ◌∙◌, List, [], ◌∷◌, length}
use learn_cpp.Particles.{
  Particle, ParticleSystem, Float, accelerate, move, integrate_velocity_oop, integrate_position_oop,
  render_oop, render_loop_oop, accelerate_at, velocity_loop, integrate_velocity_dop, move_at,
  position_loop, integrate_position_dop, render_loop_dop, render_dop,
}

module _ {F : Type 0} where
  abbrev empty : ParticleSystem F
  empty = record { x = []; y = []; z = []; vx = []; vy = []; vz = []; ax = []; ay = []; az = [] }

  abbrev put : Particle F → ParticleSystem F → ParticleSystem F
  put p s = record {
    x = p.x ∷ s.x;
    y = p.y ∷ s.y;
    z = p.z ∷ s.z;
    vx = p.vx ∷ s.vx;
    vy = p.vy ∷ s.vy;
    vz = p.vz ∷ s.vz;
    ax = p.ax ∷ s.ax;
    ay = p.ay ∷ s.ay;
    az = p.az ∷ s.az;
  }

  -- One vector per field.
  abbrev pub columns : List (Particle F) → ParticleSystem F
  columns [] = empty
  columns (p ∷ ps) = put p (columns ps)

-- A call of one of the two integrating systems.
pub data System (F : Type 0) : Type 0 where
  velocity : F → System F
  position : F → System F

module _ {F : Type 0} (float : Float F) where
  velocity-put :
      (dt : F) (n i : ℕ) (p : Particle F) (s : ParticleSystem F)
      → velocity_loop float dt n (suc i) (put p s) ≡ put p (velocity_loop float dt n i s)
  unfolding velocity_loop
  velocity-put dt zero i p s = refl
  velocity-put dt (suc n) i p s = velocity-put dt n (suc i) p (accelerate_at float dt i s)

  velocity-columns :
      (dt : F) (ps : List (Particle F))
      → integrate_velocity_dop float dt (columns ps) ≡ columns (integrate_velocity_oop float dt ps)
  unfolding integrate_velocity_dop velocity_loop integrate_velocity_oop
  velocity-columns dt [] = refl
  velocity-columns dt (p ∷ ps) =
      velocity-put dt (length (columns ps).x) 0 (accelerate float dt p) (columns ps)
      ∙ ap (put (accelerate float dt p)) (velocity-columns dt ps)

  position-put :
      (dt : F) (n i : ℕ) (p : Particle F) (s : ParticleSystem F)
      → position_loop float dt n (suc i) (put p s) ≡ put p (position_loop float dt n i s)
  unfolding position_loop
  position-put dt zero i p s = refl
  position-put dt (suc n) i p s = position-put dt n (suc i) p (move_at float dt i s)

  position-columns :
      (dt : F) (ps : List (Particle F))
      → integrate_position_dop float dt (columns ps) ≡ columns (integrate_position_oop float dt ps)
  unfolding integrate_position_dop position_loop integrate_position_oop
  position-columns dt [] = refl
  position-columns dt (p ∷ ps) =
      position-put dt (length (columns ps).x) 0 (move float dt p) (columns ps)
      ∙ ap (put (move float dt p)) (position-columns dt ps)

  render-put :
      (n i : ℕ) (sum : F) (p : Particle F) (s : ParticleSystem F)
      → render_loop_dop float n (suc i) sum (put p s) ≡ render_loop_dop float n i sum s
  unfolding render_loop_dop
  render-put zero i sum p s = refl
  render-put (suc n) i sum p s = render-put n (suc i) _ p s

  render_loop-columns :
      (ps : List (Particle F)) (sum : F)
      → render_loop_dop float (length (columns ps).x) 0 sum (columns ps)
        ≡ render_loop_oop float sum ps
  unfolding render_loop_dop render_loop_oop
  render_loop-columns [] sum = refl
  render_loop-columns (p ∷ ps) sum =
      render-put (length (columns ps).x) 0 _ p (columns ps) ∙ render_loop-columns ps _

  abbrev pub run_oop : List (System F) → List (Particle F) → List (Particle F)
  run_oop [] ps = ps
  run_oop (velocity dt ∷ rest) ps = run_oop rest (integrate_velocity_oop float dt ps)
  run_oop (position dt ∷ rest) ps = run_oop rest (integrate_position_oop float dt ps)

  abbrev pub run_dop : List (System F) → ParticleSystem F → ParticleSystem F
  run_dop [] s = s
  run_dop (velocity dt ∷ rest) s = run_dop rest (integrate_velocity_dop float dt s)
  run_dop (position dt ∷ rest) s = run_dop rest (integrate_position_dop float dt s)

  run-columns :
      (steps : List (System F)) (ps : List (Particle F))
      → run_dop steps (columns ps) ≡ columns (run_oop steps ps)
  run-columns [] ps = refl
  run-columns (velocity dt ∷ rest) ps =
      ap (run_dop rest) (velocity-columns dt ps)
      ∙ run-columns rest (integrate_velocity_oop float dt ps)
  run-columns (position dt ∷ rest) ps =
      ap (run_dop rest) (position-columns dt ps)
      ∙ run-columns rest (integrate_position_oop float dt ps)

  -- The two layouts render the same number after any integrations of velocity and position in any
  -- order, whatever the sum and the product of `float` are: the same operations are done in the same
  -- order.
  pub layouts_agree :
      (steps : List (System F)) (ps : List (Particle F))
      → render_dop float (run_dop steps (columns ps)) ≡ render_oop float (run_oop steps ps)
  unfolding render_dop render_oop
  layouts_agree steps ps =
      ap (render_dop float) (run-columns steps ps)
      ∙ render_loop-columns (run_oop steps ps) float.nought
