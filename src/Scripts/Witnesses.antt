-- ===== src/Scripts/Witnesses.antt =====
-- A folder with one image and a service that never answers.
use cbir_engine.Base.{
  List, [], arith, codes, false, length, none, refl, some, text_eq, true, ◌∷◌, ◌≡◌,
}
use cbir_engine.Base.Strings.{lower}
use cbir_engine.Scripts.Upload.{Clocked, Entry, UploadArgs, find_images, main}
use cbir_engine.Scripts.Upload.Accounting.{CountsAll, main-CountsAll}
use cbir_engine.Sdk.Client.{Surroundings, failed}

abbrev one_image : List Entry
one_image =
    record {
      path = codes "cars/a.jpg";
      is_file = true;
      suffix = codes ".jpg";
      parent_name = codes "cars";
    }
    ∷ []

abbrev unreachable : Surroundings
unreachable = record {
  reply = λ calls. failed (codes "refused");
  read_file = λ path. some [];
  file_name = λ path. path;
  guess_type = λ name. none;
  shown = λ j. [];
}

abbrev demo_args : UploadArgs
demo_args = record {
  limit = none;
  poll_interval = 1000;
  poll_timeout = 60000;
  dry_run = false;
  api_key = some (107 ∷ []);
  catalog_url = codes "http://c";
  query_url = codes "http://q";
}

abbrev at_start : Clocked
at_start = record { calls = []; time = 0 }

found_image : length (find_images one_image) ≡ 1
unfolding find_images codes lower text_eq
found_image = refl

main-CountsAll_example :
    CountsAll unreachable
      (λ calls. 5)
      (length (find_images one_image))
      (main unreachable (λ calls. 5) demo_args (some one_image) at_start)
main-CountsAll_example =
    main-CountsAll unreachable (λ calls. 5) demo_args one_image 107 [] at_start refl refl
      (omega arith) (omega (arith, found_image))
