-- ===== src/Drivers/Keymap.antt =====
-- The table of drivers/i386/keyboard.c that translates scan codes: the key without shift, with shift,
-- and behind the prefix 0xE0.
use jnix.Prelude.{ℕ, List, [], ◌∷◌}
use jnix.Drivers.Keys.{
  alt_l_key, alt_r_key, apps_key, backspace, caps_lock_key, ctrl_l_key, ctrl_r_key, delete_key,
  down_key, end_key, enter_key, esc_key, f1, f10, f11, f12, f2, f3, f4, f5, f6, f7, f8, f9, gui_l,
  gui_r, home_key, insert_key, left_key, num_lock_key, pad_dot, pad_down, pad_end, pad_enter,
  pad_home, pad_ins, pad_left, pad_mid, pad_minus, pad_pagedown, pad_pageup, pad_plus, pad_right,
  pad_slash, pad_up, pagedown, pageup, right_key, scroll_lock_key, shift_l_key, shift_r_key,
  tab_key, up_key,
}

abbrev pub keymap : List (ℕ × ℕ × ℕ)
keymap =
    (0, 0, 0)
    ∷ (esc_key, esc_key, 0)
    ∷ (b'1', b'!', 0)
    ∷ (b'2', b'@', 0)
    ∷ (b'3', b'#', 0)
    ∷ (b'4', b'$', 0)
    ∷ (b'5', b'%', 0)
    ∷ (b'6', b'^', 0)
    ∷ (b'7', b'&', 0)
    ∷ (b'8', b'*', 0)
    ∷ (b'9', b'(', 0)
    ∷ (b'0', b')', 0)
    ∷ (b'-', b'_', 0)
    ∷ (b'=', b'+', 0)
    ∷ (backspace, backspace, 0)
    ∷ (tab_key, tab_key, 0)
    ∷ (b'q', b'Q', 0)
    ∷ (b'w', b'W', 0)
    ∷ (b'e', b'E', 0)
    ∷ (b'r', b'R', 0)
    ∷ (b't', b'T', 0)
    ∷ (b'y', b'Y', 0)
    ∷ (b'u', b'U', 0)
    ∷ (b'i', b'I', 0)
    ∷ (b'o', b'O', 0)
    ∷ (b'p', b'P', 0)
    ∷ (b'[', b'{', 0)
    ∷ (b']', b'}', 0)
    ∷ (enter_key, enter_key, pad_enter)
    ∷ (ctrl_l_key, ctrl_l_key, ctrl_r_key)
    ∷ (b'a', b'A', 0)
    ∷ (b's', b'S', 0)
    ∷ (b'd', b'D', 0)
    ∷ (b'f', b'F', 0)
    ∷ (b'g', b'G', 0)
    ∷ (b'h', b'H', 0)
    ∷ (b'j', b'J', 0)
    ∷ (b'k', b'K', 0)
    ∷ (b'l', b'L', 0)
    ∷ (b';', b':', 0)
    ∷ (39, b'"', 0)
    ∷ (b'`', b'~', 0)
    ∷ (shift_l_key, shift_l_key, 0)
    ∷ (92, b'|', 0)
    ∷ (b'z', b'Z', 0)
    ∷ (b'x', b'X', 0)
    ∷ (b'c', b'C', 0)
    ∷ (b'v', b'V', 0)
    ∷ (b'b', b'B', 0)
    ∷ (b'n', b'N', 0)
    ∷ (b'm', b'M', 0)
    ∷ (b',', b'<', 0)
    ∷ (b'.', b'>', 0)
    ∷ (b'/', b'?', pad_slash)
    ∷ (shift_r_key, shift_r_key, 0)
    ∷ (b'*', b'*', 0)
    ∷ (alt_l_key, alt_l_key, alt_r_key)
    ∷ (b' ', b' ', 0)
    ∷ (caps_lock_key, caps_lock_key, 0)
    ∷ (f1, f1, 0)
    ∷ (f2, f2, 0)
    ∷ (f3, f3, 0)
    ∷ (f4, f4, 0)
    ∷ (f5, f5, 0)
    ∷ (f6, f6, 0)
    ∷ (f7, f7, 0)
    ∷ (f8, f8, 0)
    ∷ (f9, f9, 0)
    ∷ (f10, f10, 0)
    ∷ (num_lock_key, num_lock_key, 0)
    ∷ (scroll_lock_key, scroll_lock_key, 0)
    ∷ (pad_home, b'7', home_key)
    ∷ (pad_up, b'8', up_key)
    ∷ (pad_pageup, b'9', pageup)
    ∷ (pad_minus, b'-', 0)
    ∷ (pad_left, b'4', left_key)
    ∷ (pad_mid, b'5', 0)
    ∷ (pad_right, b'6', right_key)
    ∷ (pad_plus, b'+', 0)
    ∷ (pad_end, b'1', end_key)
    ∷ (pad_down, b'2', down_key)
    ∷ (pad_pagedown, b'3', pagedown)
    ∷ (pad_ins, b'0', insert_key)
    ∷ (pad_dot, b'.', delete_key)
    ∷ (0, 0, 0)
    ∷ (0, 0, 0)
    ∷ (0, 0, 0)
    ∷ (f11, f11, 0)
    ∷ (f12, f12, 0)
    ∷ (0, 0, 0)
    ∷ (0, 0, 0)
    ∷ (0, 0, gui_l)
    ∷ (0, 0, gui_r)
    ∷ (0, 0, apps_key)
    ∷ (0, 0, 0)
    ∷ (0, 0, 0)
    ∷ (0, 0, 0)
    ∷ (0, 0, 0)
    ∷ (0, 0, 0)
    ∷ (0, 0, 0)
    ∷ (0, 0, 0)
    ∷ (0, 0, 0)
    ∷ (0, 0, 0)
    ∷ (0, 0, 0)
    ∷ (0, 0, 0)
    ∷ (0, 0, 0)
    ∷ (0, 0, 0)
    ∷ (0, 0, 0)
    ∷ (0, 0, 0)
    ∷ (0, 0, 0)
    ∷ (0, 0, 0)
    ∷ (0, 0, 0)
    ∷ (0, 0, 0)
    ∷ (0, 0, 0)
    ∷ (0, 0, 0)
    ∷ (0, 0, 0)
    ∷ (0, 0, 0)
    ∷ (0, 0, 0)
    ∷ (0, 0, 0)
    ∷ (0, 0, 0)
    ∷ (0, 0, 0)
    ∷ (0, 0, 0)
    ∷ (0, 0, 0)
    ∷ (0, 0, 0)
    ∷ (0, 0, 0)
    ∷ (0, 0, 0)
    ∷ (0, 0, 0)
    ∷ (0, 0, 0)
    ∷ []
