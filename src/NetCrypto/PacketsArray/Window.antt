-- ===== src/NetCrypto/PacketsArray/Window.antt =====
-- toxcore/net_crypto.c: well-formed packet windows, through each operation.
use insert_project_name_here.Base.{ℕ, ◌^◌, ◌≤◌, ◌<◌, ◌≡◌, refl, Bool, none, arith, sub32}
use insert_project_name_here.NetCrypto.PacketsArray.{
  PacketsArray, PacketData, buffer_size, add_data_to_buffer, add_data_end_of_buffer,
  read_data_beg_buffer, clear_to, clear_buffer_until, clear_buffer, set_buffer_end,
}
use insert_project_name_here.NetCrypto.PacketsArray.Slots.{behind, clear_slots_lem, clear_slots-end}

-- The two ends are words, at most `buffer_size` apart, and no packet lies outside them.
pub record IsWindow (a : PacketsArray) : Type 0 where
  pub start_word : a.buffer_start < 2 ^ 32
  pub end_word : a.buffer_end < 2 ^ 32
  pub fits : sub32 a.buffer_end a.buffer_start ≤ buffer_size
  pub inside :
      (j : ℕ)
      → j < buffer_size
      → sub32 a.buffer_end a.buffer_start ≤ behind a.buffer_start j
      → a.buffer j ≡ none

-- `add_data_to_buffer` for a number less than 32768 past the start keeps the window well formed:
-- at most 32768 numbers between words, and every slot outside of them empty.
pub add_data_to_buffer-IsWindow :
    {a : PacketsArray} (malloc : Bool) (number : ℕ) (d : PacketData)
    → number < 2 ^ 32
    → sub32 number a.buffer_start < buffer_size
    → IsWindow a
    → IsWindow (add_data_to_buffer malloc a number d).0
unfolding add_data_to_buffer
add_data_to_buffer-IsWindow {a} malloc number d hn ho w = record {
  start_word = ground (arith, w.start_word);
  end_word = ground (arith, w.end_word);
  fits = ground (arith, w.start_word, w.end_word, w.fits);
  inside = λ j hj hb. ground (arith, w.start_word, w.end_word, w.fits, w.inside j hj);
}

-- `add_data_end_of_buffer` keeps the window well formed.
pub add_data_end_of_buffer-IsWindow :
    {a : PacketsArray} (malloc : Bool) (d : PacketData)
    → IsWindow a
    → IsWindow (add_data_end_of_buffer malloc a d).0
unfolding add_data_end_of_buffer
add_data_end_of_buffer-IsWindow {a} malloc d w = record {
  start_word = ground (arith, w.start_word);
  end_word = ground (arith, w.end_word);
  fits = ground (arith, w.start_word, w.end_word, w.fits);
  inside = λ j hj hb. ground (arith, w.start_word, w.end_word, w.fits, w.inside j hj);
}

-- `read_data_beg_buffer` keeps the window well formed.
pub read_data_beg_buffer-IsWindow :
    {a : PacketsArray} → IsWindow a → IsWindow (read_data_beg_buffer a).0
unfolding read_data_beg_buffer
read_data_beg_buffer-IsWindow {a} w = record {
  start_word = ground (arith, w.start_word);
  end_word = ground (arith, w.end_word);
  fits = ground (arith, w.start_word, w.end_word, w.fits);
  inside = λ j hj hb. ground (arith, w.start_word, w.end_word, w.fits, w.inside j hj);
}

clear_to-IsWindow :
    {a : PacketsArray} (number : ℕ)
    → number < 2 ^ 32
    → IsWindow a
    → sub32 number a.buffer_start ≤ sub32 a.buffer_end a.buffer_start
    → IsWindow (clear_to a number)
unfolding clear_to
clear_to-IsWindow {a} number hn w ho =
    let same =
      clear_slots-end (sub32 number a.buffer_start) a.buffer_start number a.buffer w.start_word hn
        refl in
    record {
      start_word = ground (arith, same);
      end_word = ground (arith, w.end_word);
      fits = ground (arith, w.start_word, w.end_word, w.fits, same);
      inside = λ j hj hb. ground (
        arith,
        w.start_word,
        w.end_word,
        w.fits,
        same,
        w.inside j hj,
        clear_slots_lem (sub32 number a.buffer_start) a.buffer_start number a.buffer j w.start_word
            hn refl hj,
      );
    }

-- `clear_buffer_until` up to any word keeps the window well formed.
pub clear_buffer_until-IsWindow :
    {a : PacketsArray} (number : ℕ)
    → number < 2 ^ 32
    → IsWindow a
    → IsWindow (clear_buffer_until a number).0
unfolding clear_buffer_until
clear_buffer_until-IsWindow {a} number hn w =
    ground (arith, w.start_word, w.end_word, w.fits, clear_to-IsWindow number hn w)

pub clear_buffer-IsWindow : {a : PacketsArray} → IsWindow a → IsWindow (clear_buffer a)
unfolding clear_buffer
clear_buffer-IsWindow {a} w = clear_to-IsWindow a.buffer_end w.end_word w (omega arith)

-- `set_buffer_end` to any word keeps the window well formed.
pub set_buffer_end-IsWindow :
    {a : PacketsArray} (number : ℕ)
    → number < 2 ^ 32
    → IsWindow a
    → IsWindow (set_buffer_end a number).0
unfolding set_buffer_end
set_buffer_end-IsWindow {a} number hn w = record {
  start_word = ground (arith, w.start_word);
  end_word = ground (arith, w.end_word);
  fits = ground (arith, w.start_word, w.end_word, w.fits);
  inside = λ j hj hb. ground (arith, w.start_word, w.end_word, w.fits, w.inside j hj);
}
