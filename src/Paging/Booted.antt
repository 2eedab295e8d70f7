-- ===== src/Paging/Booted.antt =====
-- The paging of a machine with 128 MB of memory after `InitializePaging`, for the tests.
use toy_kernel.Base.{◌≡◌, refl, true, false, [], Outcome, ok, stop, is_ok}
use toy_kernel.Bitmap.{is_set, set_one, reserve, test_bit, with_one, clear}
use toy_kernel.Paging.Types.{kernel, Paging, is_present, pg_user}
use toy_kernel.Paging.Frames.{ref, set_page_frame_used, reserve_physical}
use toy_kernel.Paging.Spaces.{initialize_paging, add_page}
use toy_kernel.Paging.Boot.{absent, initialize_paging-IsCounted}
use toy_kernel.Paging.Invariant.{IsCounted}

abbrev pub unpaged : Paging
unpaged = record {
  kernel_dir = λ i. 0;
  dirs = λ n i. 0;
  region = [];
  frames = record { bits = []; refs = λ i. 0 };
}

abbrev pub paging_of : Outcome Paging → Paging
paging_of (ok s) = s
paging_of stop = unpaged

pub paging_of-ok : (m : Outcome Paging) → is_ok m ≡ true → m ≡ ok (paging_of m)
paging_of-ok (ok s) h = refl
paging_of-ok stop h = cc

unfoldable pub booted : Paging
booted = paging_of (initialize_paging 131072 (λ n i. 0))

booted_runs : is_ok (initialize_paging 131072 (λ n i. 0)) ≡ true
unfolding initialize_paging reserve_physical reserve set_one add_page is_set test_bit with_one ref
    set_page_frame_used clear is_present
booted_runs = refl

pub booted-ok : initialize_paging 131072 (λ n i. 0) ≡ ok booted
unfolding booted
booted-ok = paging_of-ok _ booted_runs

pub booted-IsCounted : IsCounted absent booted
booted-IsCounted = initialize_paging-IsCounted 131072 (λ n i. 0) booted booted-ok

-- A page of the user's shared space on frame 0.
unfoldable pub shared_page : Paging
shared_page = paging_of (add_page kernel 0xC00000 0 pg_user false booted)

pub shared_page-ok : add_page kernel 0xC00000 0 pg_user false booted ≡ ok shared_page
unfolding initialize_paging reserve_physical reserve set_one add_page is_set test_bit with_one ref
    set_page_frame_used clear is_present booted shared_page
shared_page-ok = paging_of-ok _ refl
