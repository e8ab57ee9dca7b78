-- ===== src/Mm/Paging/Tests.antt =====
-- A directory in page 0, a table in page 1, and page 2 with two owners.
use jnix.Prelude.{◌≡◌, ◌⊎◌, refl, false, [], ◌∷◌, arith, ◌==◌, if◌then◌else◌, ok, panicked}
use jnix.Mm.Page.{Page, Ram}
use jnix.Mm.Page.Alloc.{UsedBelow}
use jnix.Mm.Paging.{user_attr, do_wp_page, do_no_page}
use jnix.Mm.Paging.Faults.{base, Tables}
use jnix.Mm.Paging.Copies.{Shared, Copied, do_wp_page_lem}
use jnix.Mm.Paging.Fresh.{AtMostOneFree, Directory, Mapped, do_no_page_lem}

abbrev used_once : Page
used_once = record { count = 1; flags = 1 }

abbrev used_twice : Page
used_twice = record { count = 2; flags = 3 }

abbrev unused : Page
unused = record { count = 0; flags = 0 }

abbrev ram : Ram
ram = record {
  mem_map = used_once ∷ used_once ∷ used_twice ∷ unused ∷ unused ∷ [];
  mem = λ a. if a == 0xC0000000 then 0x1007 else if a == 0xC0001004 then 0x2005 else 9;
}

ram-Tables : Tables ram 0 1 0x1234
ram-Tables = record {
  size = omega arith;
  small = omega arith;
  dir_page = used_once;
  dir_at = refl;
  dir_used = refl;
  table_page = used_once;
  table_at = refl;
  table_used = refl;
  attr = 7;
  attr_small = omega arith;
  entry = refl;
}

ram-Shared : Shared ram 1 2 0x1234
ram-Shared = record {
  attr = 5;
  attr_small = omega arith;
  entry = refl;
  old = used_twice;
  old_at = refl;
  old_used = refl;
  shared = refl;
  not_table = omega arith;
}

ram-Directory : Directory ram 0 0x1234
ram-Directory = record {
  size = omega arith;
  small = omega arith;
  page = used_once;
  at = refl;
  used = refl;
}

do_wp_page_lem_example :
    ((r' : Ram) × (do_wp_page (base 0) 0x1234 ram ≡ ok r')
      × Copied ram 1 2 0x1234 (ram-Shared.old.count) r')
    ⊎ ((do_wp_page (base 0) 0x1234 ram ≡ panicked) × UsedBelow ram.mem_map 5)
do_wp_page_lem_example = do_wp_page_lem ram 0 1 2 0x1234 ram-Tables ram-Shared

do_no_page_lem_example :
    ((r' : Ram) × (do_no_page false (base 0) 0x1234 ram ≡ ok r') × Mapped ram 0 0x1234 user_attr r')
    ⊎ ((do_no_page false (base 0) 0x1234 ram ≡ panicked) × AtMostOneFree ram)
do_no_page_lem_example = do_no_page_lem ram 0 0x1234 false ram-Directory
