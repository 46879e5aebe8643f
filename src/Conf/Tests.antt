-- ===== src/Conf/Tests.antt =====
-- Witnesses for the command line, on the `install` command of apps/democli.
use cpp_template.Base.{
  suc, true, false, same, some, List, [], ◌∷◌, ◌++◌, ◌≡◌, ◌≢◌, refl, codes, length,
}
use cpp_template.Core.{ok}
use cpp_template.Conf.{CliOption, CliCommand, CliApp, starts_with_dash_dash, find_option, iterator}
use cpp_template.Conf.Walk.{Item, Names, spaced, plain}
use cpp_template.Conf.Line.{walk, all_tokens, terminated, meanings, arguments, walk-line}

abbrev stop_before : CliOption
stop_before = record {
  long_option = codes "--stop-before";
  description = codes "Halt the workflow before STATE";
  parameter = codes "STATE";
}

abbrev install : CliCommand
install = record {
  name = codes "install";
  description = codes "Download, verify and install an artifact";
  argument = some (record { name = codes "artifact"; mandatory = true });
  options = stop_before ∷ [];
}

stop_before-Names : Names install stop_before
unfolding find_option starts_with_dash_dash same
stop_before-Names = record {
  listed = refl;
  dashes = refl;
  no_equals = (
    refl,
    (
      refl,
      (refl, (refl, (refl, (refl, (refl, (refl, (refl, (refl, (refl, (refl, (refl, tt))))))))))),
    ),
  );
  longer = refl;
}

image_plain : starts_with_dash_dash (codes "image.mender") ≡ false
unfolding starts_with_dash_dash
image_plain = refl

has_parameter : codes "STATE" ≢ []
has_parameter h = cc

abbrev items : List (Item install)
items =
    spaced stop_before stop_before-Names has_parameter (codes "Commit")
    ∷ plain (codes "image.mender") image_plain
    ∷ []

walk-line_example :
    walk
      (suc (length (all_tokens items ++ terminated (some (codes "--x" ∷ [])))))
      (iterator (all_tokens items ++ terminated (some (codes "--x" ∷ []))) install)
    ≡ some (ok (meanings items ++ arguments (some (codes "--x" ∷ []))))
walk-line_example = walk-line items (some (codes "--x" ∷ []))

abbrev democli : CliApp
democli = record {
  name = codes "democli";
  short_description = codes "demo";
  long_description = [];
  commands = install ∷ [];
}
