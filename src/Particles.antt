-- ===== src/Particles.antt =====
-- topics/microarchitecture/aos_vs_soa_particles.cpp: particles in one vector of structs, and in one
-- vector per field. The type `float`, its sum, its product and the three constants of the renderer are
-- parameters.
pub mod Agree
mod Tests
use learn_cpp.Prelude.{ℕ, zero, suc, ◌+◌, List, [], ◌∷◌, map, length, get_or, set}

pub record Particle (F : Type 0) : Type 0 where
  pub x : F
  pub y : F
  pub z : F
  pub vx : F
  pub vy : F
  pub vz : F
  pub ax : F
  pub ay : F
  pub az : F
  pub extra : List F

pub record ParticleSystem (F : Type 0) : Type 0 where
  pub x : List F
  pub y : List F
  pub z : List F
  pub vx : List F
  pub vy : List F
  pub vz : List F
  pub ax : List F
  pub ay : List F
  pub az : List F

pub record Float (F : Type 0) : Type 0 where
  pub nought : F
  pub add : F → F → F
  pub mul : F → F → F
  pub x_weight : F
  pub y_weight : F
  pub z_weight : F

module _ {F : Type 0} (float : Float F) where
  -- `a += b * dt`
  abbrev pub advance : F → F → F → F
  advance dt a b = float.add a (float.mul b dt)

  -- The body of the loop of `system_integrate_velocity_oop`.
  abbrev pub accelerate : F → Particle F → Particle F
  accelerate dt p = record p {
    vx = advance dt p.vx p.ax;
    vy = advance dt p.vy p.ay;
    vz = advance dt p.vz p.az;
  }

  unfoldable pub integrate_velocity_oop : F → List (Particle F) → List (Particle F)
  integrate_velocity_oop dt [] = []
  integrate_velocity_oop dt (p ∷ ps) = accelerate dt p ∷ integrate_velocity_oop dt ps

  -- The body of the loop of `system_integrate_position_oop`.
  abbrev pub move : F → Particle F → Particle F
  move dt p = record p { x = advance dt p.x p.vx; y = advance dt p.y p.vy; z = advance dt p.z p.vz }

  unfoldable pub integrate_position_oop : F → List (Particle F) → List (Particle F)
  integrate_position_oop dt [] = []
  integrate_position_oop dt (p ∷ ps) = move dt p ∷ integrate_position_oop dt ps

  -- `sum += x * 0.1f + y * 0.2f + z * 0.3f`
  abbrev pub shade : F → F → F → F → F
  shade sum x y z = float.add sum (
      float.add (float.add (float.mul x float.x_weight) (float.mul y float.y_weight))
        (float.mul z float.z_weight))

  unfoldable pub render_loop_oop : F → List (Particle F) → F
  render_loop_oop sum [] = sum
  render_loop_oop sum (p ∷ ps) = render_loop_oop (shade sum p.x p.y p.z) ps

  unfoldable pub render_oop : List (Particle F) → F
  unfolding render_loop_oop
  render_oop ps = render_loop_oop float.nought ps

  -- `a[i] += b[i] * dt`
  abbrev pub advance_at : F → ℕ → List F → List F → List F
  advance_at dt i a b = set a i (advance dt (get_or a i float.nought) (get_or b i float.nought))

  -- The body of the loop of `system_integrate_velocity_dop`.
  abbrev pub accelerate_at : F → ℕ → ParticleSystem F → ParticleSystem F
  accelerate_at dt i s = record s {
    vx = advance_at dt i s.vx s.ax;
    vy = advance_at dt i s.vy s.ay;
    vz = advance_at dt i s.vz s.az;
  }

  -- Its loop, with a number of rounds left.
  unfoldable pub velocity_loop : F → ℕ → ℕ → ParticleSystem F → ParticleSystem F
  velocity_loop dt zero i s = s
  velocity_loop dt (suc n) i s = velocity_loop dt n (suc i) (accelerate_at dt i s)

  unfoldable pub integrate_velocity_dop : F → ParticleSystem F → ParticleSystem F
  unfolding velocity_loop
  integrate_velocity_dop dt s = velocity_loop dt (length s.x) 0 s

  -- The body of the loop of `system_integrate_position_dop`.
  abbrev pub move_at : F → ℕ → ParticleSystem F → ParticleSystem F
  move_at dt i s = record s {
    x = advance_at dt i s.x s.vx;
    y = advance_at dt i s.y s.vy;
    z = advance_at dt i s.z s.vz;
  }

  unfoldable pub position_loop : F → ℕ → ℕ → ParticleSystem F → ParticleSystem F
  position_loop dt zero i s = s
  position_loop dt (suc n) i s = position_loop dt n (suc i) (move_at dt i s)

  unfoldable pub integrate_position_dop : F → ParticleSystem F → ParticleSystem F
  unfolding position_loop
  integrate_position_dop dt s = position_loop dt (length s.x) 0 s

  unfoldable pub render_loop_dop : ℕ → ℕ → F → ParticleSystem F → F
  render_loop_dop zero i sum s = sum
  render_loop_dop (suc n) i sum s =
      render_loop_dop n (suc i)
        (shade sum (get_or s.x i float.nought) (get_or s.y i float.nought)
          (get_or s.z i float.nought))
        s

  unfoldable pub render_dop : ParticleSystem F → F
  unfolding render_loop_dop
  render_dop s = render_loop_dop (length s.x) 0 float.nought s
