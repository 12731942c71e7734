-- ===== src/Glide/FRet.antt =====
-- glidept_mm.c: processFRet, which takes in what a call has returned, and a call
-- from processArgs to processFRet.
pub mod State
mod Window
mod Lfb
mod Index
mod Laws
mod Frame
mod Tests
use qemu_win.Prelude.{ℕ, Bool, ◌&&◌, ◌||◌, List, ◌++◌, ◌==◌, ◌!=◌, if◌then◌else◌, update}
use qemu_win.Glide.FEnum
use qemu_win.Glide.Args.State.{GlidePt, Host}
use qemu_win.Glide.Args.{switch, process_args}
use qemu_win.Glide.Dispatch.{do_glide_func}
use State.{GlideDev, RetHost, RetCase}
use Window.{window_cases}
use Lfb.{lfb_cases}

unfoldable pub ret_cases : RetHost → List RetCase
unfolding window_cases lfb_cases
ret_cases host = window_cases host ++ lfb_cases host

unfoldable pub process_fret : RetHost → GlideDev → GlideDev
unfolding switch ret_cases
process_fret host d = switch (ret_cases host) d.pt.fenum d

-- processArgs and doGlideFunc: `ptr` and `post_init` are the table of the library and glidePostInit,
-- and `ret` is what doGlideFunc leaves in FRet
unfoldable pub prepare : Host → (ℕ → ℕ) → Bool → ℕ → GlideDev → GlideDev
unfolding process_args
prepare host ptr post_init ret d =
    let push = d.pt.fenum == FEnum.gr_glide_init && (d.pt.fbuf && d.pt.flen != 0) in
    let t = process_args host d.pt in
    let called = do_glide_func ptr t.lfb_dev.emu211 post_init t.fenum (t.arg 1) in
    record d {
      pt = record t { fret = ret; arg = update t.arg 1 called.2 };
      cfg_pushed = push || d.cfg_pushed;
    }

-- a call from processArgs to processFRet
unfoldable pub serve : Host → (ℕ → ℕ) → Bool → RetHost → ℕ → GlideDev → GlideDev
unfolding prepare process_fret
serve host ptr post_init answers ret d = process_fret answers (prepare host ptr post_init ret d)
