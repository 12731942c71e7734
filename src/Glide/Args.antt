-- ===== src/Glide/Args.antt =====
-- glidept_mm.c: processArgs, which prepares the arguments of a call for the library.
pub mod State
pub mod Draw
pub mod Tex
pub mod Lfb
mod Laws
mod Tests
use qemu_win.Prelude.{ℕ, List, [], ◌∷◌, ◌++◌, if◌then◌else◌, is_in}
use State.{GlidePt, Host, Case}
use Draw.{draw_cases, query_cases}
use Tex.{tex_cases}
use Lfb.{lfb_cases}

-- a `switch` whose labels are all different; without a label, nothing is done
unfoldable pub switch : {A : Type 0} → List (List ℕ × (A → A)) → ℕ → A → A
switch [] fenum s = s
switch ((labels, run) ∷ cases) fenum s =
    let rest = switch cases fenum s in if is_in labels fenum then run s else rest

unfoldable pub all_cases : Host → List Case
unfolding draw_cases query_cases tex_cases lfb_cases
all_cases host = draw_cases host ++ (query_cases ++ (tex_cases host ++ lfb_cases host))

unfoldable pub process_args : Host → GlidePt → GlidePt
unfolding switch all_cases
process_args host s = switch (all_cases host) s.fenum s
