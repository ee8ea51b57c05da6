-- ===== src/Drivers/Catalog/Examples.antt =====
-- The theorems on src/drivers/mysql_catalog.rs at a name with a backtick in it.
use dbotter.Prelude.{◌≡◌, refl, some}
use dbotter.Text.{codes}
use dbotter.Drivers.Catalog.{bounded_select_template}
use dbotter.Drivers.Catalog.Quoting.{read_template, read_template-bounded_select_template}

odd_template :
    bounded_select_template (codes "s") (codes "a`b; DROP")
    ≡ codes "SELECT * FROM `s`.`a``b; DROP` LIMIT 500"
unfolding bounded_select_template
odd_template = refl

read_template-bounded_select_template_example :
    read_template (bounded_select_template (codes "s") (codes "a`b; DROP"))
    ≡ some (codes "s", codes "a`b; DROP", codes " LIMIT 500")
read_template-bounded_select_template_example =
    read_template-bounded_select_template (codes "s") (codes "a`b; DROP")
