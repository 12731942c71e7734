-- ===== src/Glide/Guest/System.antt =====
-- glidedll.c: the wrappers of the library's life, the window, the frame buffer and files.
use qemu_win.Prelude.{
  ℕ, ◌+◌, ◌-◌, ◌*◌, true, false, List, [], ◌∷◌, ◌++◌, ◌==◌, ◌!=◌, ltb, if◌then◌else◌, bit_and, u32,
}
use qemu_win.Glide.FEnum
use qemu_win.Glide.Args.Draw.{size_grsstperfstats, size_grhwconfig}
use qemu_win.Glide.Args.Lfb.{size_grlfbinfo}
use qemu_win.Glide.Guest.Ops.{
  Op, at, add_data, store, call, out_data, copy_data, copy_file, push_file, put_version,
  wait_window, hook_time, unhook, Args, Env, Statics, Wrapper, stores, ops_if,
}

-- `MAX_3DF - ALIGNED(1)`
abbrev pub max_file : ℕ
max_file = 256 * 1024 - 8

abbrev pub size_gu3dfinfo : ℕ
size_gu3dfinfo = 1056

abbrev pub file_ops : Env → List Op
file_ops env = push_file (if ltb max_file env.file_len then max_file else env.file_len) ∷ []

-- the pause that keeps the frame rate is not part of it
unfoldable pub gr_buffer_swap : Wrapper
gr_buffer_swap g env a = store 1 (a 0) ∷ call FEnum.gr_buffer_swap ∷ []

unfoldable pub gr_glide_get_version : Wrapper
gr_glide_get_version g env a = call FEnum.gr_glide_get_version ∷ out_data 0 (a 0) 80 ∷ []

unfoldable pub gr_glide_init : Statics → Env → List Op × Statics
gr_glide_init g env = (
  ops_if env.opens (file_ops env) ++ (put_version ∷ call FEnum.gr_glide_init ∷ hook_time ∷ []),
  record g { gu_tex = []; wnd = 0; present = true },
)

unfoldable pub gr_sst_win_close : Statics → List Op × Statics
gr_sst_win_close g =
    if g.wnd == 0
    then ([], g)
    else (call FEnum.gr_sst_win_close ∷ wait_window ∷ [], record g { wnd = 0 })

unfoldable pub gr_glide_shutdown : Statics → List Op × Statics
unfolding gr_sst_win_close
gr_glide_shutdown g =
    let closed = gr_sst_win_close g in
    (closed.0 ++ (call FEnum.gr_glide_shutdown ∷ unhook ∷ []), record closed.1 { present = false })

unfoldable pub gr_sst_win_open : Statics → Env → Args → List Op × Statics
unfolding gr_glide_init gr_sst_win_close
gr_sst_win_open g env a =
    let inited = if g.present then ([], g) else gr_glide_init g env in
    let closed = if inited.1.wnd == 0 then ([], inited.1) else gr_sst_win_close inited.1 in
    (
      inited.0
          ++ (closed.0
              ++ (stores 7 0 a
                  ++ (store 8 env.lfb
                      ∷ call FEnum.gr_sst_win_open
                      ∷ ops_if (env.ret != 0) (wait_window ∷ [])))),
      record closed.1 { wnd = env.ret },
    )

unfoldable pub gr_lfb_lock : Wrapper
gr_lfb_lock g env a =
    add_data 0 (at (a 5)) size_grlfbinfo
    ∷ (stores 6 0 a ++ (call FEnum.gr_lfb_lock ∷ out_data 0 (a 5) size_grlfbinfo ∷ []))

-- wrLfbInfo without its size
pub record LfbInfo : Type 0 where
  pub lfb_ptr : ℕ
  pub stride : ℕ
  pub write_mode : ℕ
  pub origin : ℕ

-- what grLfbLock makes of the host's description and of its return value; `mbufo` and `vg_lfb` are
-- where the guest has mapped the host's buffer and its own copy
unfoldable pub lock_mapped : ℕ → ℕ × LfbInfo → ℕ × LfbInfo
lock_mapped mbufo (ret, info) =
    if bit_and ret 0x20 != 0
    then (1, record info { lfb_ptr = u32 (mbufo + info.lfb_ptr) })
    else (ret, info)

unfoldable pub lock_shared : ℕ → Args → ℕ × LfbInfo → ℕ × LfbInfo
lock_shared vg_lfb a (ret, info) =
    if bit_and ret 0x10 != 0
    then (
      1,
      record {
        lfb_ptr = u32 (vg_lfb + info.lfb_ptr);
        stride = if bit_and (a 2) 0x0e == 4 then 0x1000 else 0x800;
        write_mode = a 2;
        origin = a 3;
      },
    )
    else (ret, info)

unfoldable pub lock_result : ℕ → ℕ → Args → ℕ × LfbInfo → ℕ × LfbInfo
unfolding lock_mapped lock_shared
lock_result mbufo vg_lfb a r = lock_shared vg_lfb a (lock_mapped mbufo r)

unfoldable pub gr_lfb_read_region : Wrapper
gr_lfb_read_region g env a =
    stores 7 0 a
    ++ (call FEnum.gr_lfb_read_region
        ∷ ops_if (env.ret != 0) (copy_data (a 6) (u32 (a 4 * a 5)) ∷ []))

unfoldable pub gr_lfb_write_region : Wrapper
gr_lfb_write_region g env a =
    add_data 0 (at (a 7)) (u32 (a 5 * a 6))
    ∷ (stores 8 0 a ++ (call FEnum.gr_lfb_write_region ∷ []))

unfoldable pub gr_sst_perf_stats : Wrapper
gr_sst_perf_stats g env a =
    add_data 1 (at (a 0)) size_grsstperfstats
    ∷ call FEnum.gr_sst_perf_stats
    ∷ out_data 0 (a 0) size_grsstperfstats
    ∷ []

abbrev pub query : ℕ → Wrapper
query f g env a =
    add_data 1 (at (a 0)) size_grhwconfig
    ∷ call f
    ∷ ops_if (env.ret != 0) (out_data 0 (a 0) size_grhwconfig ∷ [])

unfoldable pub gr_sst_query_boards : Wrapper
gr_sst_query_boards = query FEnum.gr_sst_query_boards

unfoldable pub gr_sst_query_hardware : Wrapper
gr_sst_query_hardware = query FEnum.gr_sst_query_hardware

unfoldable pub gr_tri_stats : Wrapper
gr_tri_stats g env a =
    add_data 1 (at (a 0)) 4
    ∷ add_data 2 (at (a 1)) 4
    ∷ call FEnum.gr_tri_stats
    ∷ out_data 0 (a 0) 4
    ∷ out_data 8 (a 1) 4
    ∷ []

unfoldable pub gu3df_get_info : Wrapper
gu3df_get_info g env a = ops_if env.opens (
    file_ops env
    ++ (add_data 0 (at env.basename) 64
        ∷ (stores 2 0 a
            ++ (call FEnum.gu3df_get_info
                ∷ ops_if (env.ret != 0) (out_data 0 (a 1) size_gu3dfinfo ∷ [])))))

-- `info->data` and `info->mem_required` of the description
unfoldable pub gu3df_load : Wrapper
gu3df_load g env a =
    add_data 0 (at env.basename) 64
    ∷ (stores 2 0 a
        ++ (call FEnum.gu3df_load
            ∷ ops_if (env.ret != 0)
                (copy_file (env.word (a 1 + 1048)) (env.word (a 1 + 1052)) ∷ [])))

unfoldable pub gu_fog_table_index_to_w : Wrapper
gu_fog_table_index_to_w g env a = store 1 (a 0) ∷ call FEnum.gu_fog_table_index_to_w ∷ []
