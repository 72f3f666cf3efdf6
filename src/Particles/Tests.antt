-- ===== src/Particles/Tests.antt =====
-- Two particles, with natural numbers in place of `float`.
use learn_cpp.Prelude.{ℕ, ◌+◌, ◌*◌, ◌≡◌, refl, List, [], ◌∷◌}
use learn_cpp.Particles.{
  Particle, Float, render_oop, render_dop, integrate_velocity_oop, integrate_position_oop,
}
use learn_cpp.Particles.Agree.{System, velocity, position, columns, run_oop, run_dop, layouts_agree}

abbrev naturals : Float ℕ
naturals = record {
  nought = 0;
  add = λ a b. a + b;
  mul = λ a b. a * b;
  x_weight = 1;
  y_weight = 2;
  z_weight = 3;
}

abbrev particle : ℕ → Particle ℕ
particle n = record {
  x = n;
  y = 0;
  z = 1;
  vx = 1;
  vy = 2;
  vz = 3;
  ax = 1;
  ay = 0;
  az = 2;
  extra = [];
}

abbrev particles : List (Particle ℕ)
particles = particle 5 ∷ particle 7 ∷ []

abbrev steps : List (System ℕ)
steps = velocity 2 ∷ position 3 ∷ velocity 1 ∷ []

rendered : render_oop naturals (run_oop naturals steps particles) ≡ 186
unfolding render_oop integrate_velocity_oop integrate_position_oop
rendered = refl

layouts_agree_example :
    render_dop naturals (run_dop naturals steps (columns particles))
    ≡ render_oop naturals (run_oop naturals steps particles)
layouts_agree_example = layouts_agree naturals steps particles
