-- ===== src/Glide/FRet/Index.antt =====
-- processArgs keeps the index of the current lock within its array.
use qemu_win.Prelude.{
  ℕ, ◌<◌, ◌≡◌, Bool-cases, inl, inr, Bool, true, false, List, [], ◌∷◌, ◌++◌, arith, is_in,
  if◌then◌else◌,
}
use qemu_win.Glide.Args.State.{GlidePt, Host}
use qemu_win.Glide.Args.Draw.{draw_cases, query_cases}
use qemu_win.Glide.Args.Tex.{tex_cases}
use qemu_win.Glide.Args.Lfb.{lfb_cases}
use qemu_win.Glide.Args.{switch, all_cases, process_args}

pub Keeps-if :
    {A : Type 0} (P : A → Type 0) (b : Bool) (x y : A) → P x → P y → P (if b then x else y)
Keeps-if P true x y hx hy = hx
Keeps-if P false x y hx hy = hy

module _ {A : Type 0} (P : A → Type 0) (s : A) (f : ℕ) where
  -- every case of a switch on `f` makes a state with P of `s`, if it is taken
  infixr 5 ◌◁◌
  pub data Lands : List (List ℕ × (A → A)) → Type 0 where
    done : Lands []
    ◌◁◌ :
        {labels : List ℕ} {run : A → A} {cases : List (List ℕ × (A → A))}
        → P (run s)
        → Lands cases
        → Lands ((labels, run) ∷ cases)
    passed :
        {labels : List ℕ} {run : A → A} {cases : List (List ℕ × (A → A))}
        → is_in labels f ≡ false
        → Lands cases
        → Lands ((labels, run) ∷ cases)

  pub Lands-if_taken :
      {labels : List ℕ} {run : A → A} {cases : List (List ℕ × (A → A))}
      → (is_in labels f ≡ true → P (run s))
      → Lands cases
      → Lands ((labels, run) ∷ cases)
  Lands-if_taken {labels} h k = elim (Bool-cases (is_in labels f)) [
    | inl e ↦ h e ◁ k
    | inr e ↦ passed e k
  ]

  pub Lands-append : (xs ys : List (List ℕ × (A → A))) → Lands xs → Lands ys → Lands (xs ++ ys)
  Lands-append [] ys hx hy = hy
  Lands-append (x ∷ xs) ys (p ◁ hx) hy = p ◁ Lands-append xs ys hx hy
  Lands-append (x ∷ xs) ys (passed e hx) hy = passed e (Lands-append xs ys hx hy)

  pub switch-Lands : (cases : List (List ℕ × (A → A))) → P s → Lands cases → P (switch cases f s)
  unfolding switch
  switch-Lands [] h k = h
  switch-Lands ((labels, run) ∷ cases) h (p ◁ k) =
      Keeps-if P (is_in labels f) (run s) (switch cases f s) p (switch-Lands cases h k)
  switch-Lands ((labels, run) ∷ cases) h (passed e k) = rw e (switch-Lands cases h k)

module _ (host : Host) (s : GlidePt) where
  abbrev pub HasIndex : GlidePt → Type 0
  HasIndex t = t.lfb_dev.gr_lock < 2

  draw_cases-Lands : HasIndex s → Lands HasIndex s s.fenum (draw_cases host)
  unfolding draw_cases
  draw_cases-Lands h = h ◁ h ◁ h ◁ h ◁ h ◁ h ◁ h ◁ done

  query_cases-Lands : HasIndex s → Lands HasIndex s s.fenum query_cases
  unfolding query_cases
  query_cases-Lands h = h ◁ h ◁ h ◁ h ◁ h ◁ h ◁ h ◁ h ◁ h ◁ h ◁ done

  tex_cases-Lands : HasIndex s → Lands HasIndex s s.fenum (tex_cases host)
  unfolding tex_cases
  tex_cases-Lands h = h ◁ h ◁ h ◁ h ◁ h ◁ h ◁ h ◁ h ◁ h ◁ h ◁ h ◁ h ◁ h ◁ done

  lfb_cases-Lands : HasIndex s → Lands HasIndex s s.fenum (lfb_cases host)
  unfolding lfb_cases
  lfb_cases-Lands h =
      h
      ◁ h
      ◁ h
      ◁ h
      ◁ h
      ◁ h
      ◁ h
      ◁ ground arith
      ◁ ground arith
      ◁ h
      ◁ h
      ◁ h
      ◁ ground arith
      ◁ ground arith
      ◁ ground arith
      ◁ ground arith
      ◁ done

  pub process_args-HasIndex : HasIndex s → HasIndex (process_args host s)
  unfolding process_args all_cases
  process_args-HasIndex h = switch-Lands HasIndex s s.fenum (all_cases host) h (
      Lands-append HasIndex s s.fenum (draw_cases host) _ (draw_cases-Lands h) (
        Lands-append HasIndex s s.fenum query_cases _ (query_cases-Lands h) (
          Lands-append HasIndex s s.fenum (tex_cases host) _ (tex_cases-Lands h)
            (lfb_cases-Lands h))))
