-- ===== src/Accounts/Windows.antt =====
-- ci/accounts/windows_accounts_patch.py: ten local account slots on the pinned native Desktop source.
pub mod Capacity
pub mod Prepare
use capybaragram_build.Prelude.{
  ℕ, Bool, ◌&&◌, List, [], ◌∷◌, ◌++◌, ◌==◌, leb, take, drop, String, Result, ok, err, value_error,
  ◌>>=◌, ◌>>◌, require, refuse, if◌then◌else◌,
}
use capybaragram_build.Text.{Text, codes, block, count, text_eq}
use capybaragram_build.Text.Slice.{index}
use capybaragram_build.Patch.{Edit, edit, exchange, apply}

abbrev pub domain_header : Text
domain_header = codes "Telegram/SourceFiles/main/main_domain.h"

abbrev pub domain_source : Text
domain_source = codes "Telegram/SourceFiles/main/main_domain.cpp"

abbrev pub preview_box : Text
preview_box = codes "Telegram/SourceFiles/boxes/premium_preview_box.cpp"

abbrev pub limits_box : Text
limits_box = codes "Telegram/SourceFiles/boxes/premium_limits_box.cpp"

abbrev pub files : List Text
files = domain_header ∷ domain_source ∷ preview_box ∷ limits_box ∷ []

unfoldable pub replace : Text → Text → Text → ℕ → Result Text
replace = exchange "Reviewed Desktop source anchor differs."

unfoldable pub header_edits : List Edit
header_edits =
    edit (codes "static constexpr auto kMaxAccounts = 3;")
      (codes "static constexpr auto kMaxAccounts = 10;")
    ∷ edit (codes "static constexpr auto kPremiumMaxAccounts = 6;")
        (codes "static constexpr auto kPremiumMaxAccounts = kMaxAccounts;")
    ∷ []

unfoldable pub source_edits : List Edit
source_edits =
    edit
      (block (
        "int Domain::maxAccounts() const {"
        ∷ "\tconst auto premiumCount = ranges::count_if(accounts(), []("
        ∷ "\t\t\tconst Main::Domain::AccountWithIndex &d) {"
        ∷ "\t\treturn d.account->sessionExists()" ∷ "\t\t\t&& (d.account->session().premium()"
        ∷ "\t\t\t\t|| d.account->session().isTestMode());" ∷ "\t});"
        ∷ "\treturn std::min(int(premiumCount) + kMaxAccounts, kPremiumMaxAccounts);" ∷ "}" ∷ []))
      (block ("int Domain::maxAccounts() const {" ∷ "\treturn kMaxAccounts;" ∷ "}" ∷ []))
    ∷ []

abbrev pub preview_start : Text
preview_start = block ("\tconst auto nextMax = session->domain().maxAccounts() + 1;" ∷ "" ∷ [])

abbrev pub preview_end : Text
preview_end = block ("\t{" ∷ "\t\tconst auto premium = limits.similarChannelsPremium();" ∷ [])

abbrev pub limits_start : Text
limits_start = block ("void AccountsLimitBox(" ∷ "" ∷ [])

abbrev pub limits_end : Text
limits_end = codes "QString LimitsPremiumRef(const QString &addition) {"

abbrev pub limits_new : Text
limits_new = block (
    "void AccountsLimitBox(" ∷ "\t\tnot_null<Ui::GenericBox*> box,"
    ∷ "\t\tnot_null<Main::Session*> session) {" ∷ "\tbox->setWidth(st::boxWideWidth);"
    ∷ "\tbox->setTitle(tr::lng_accounts_limit_title());" ∷ "\tbox->verticalLayout()->add("
    ∷ "\t\tobject_ptr<Ui::FlatLabel>(" ∷ "\t\t\tbox," ∷ "\t\t\ttr::lng_accounts_limit1("
    ∷ "\t\t\t\tlt_count," ∷ "\t\t\t\trpl::single<float64>(session->domain().accounts().size()),"
    ∷ "\t\t\t\ttr::rich)," ∷ "\t\t\tst::aboutRevokePublicLabel)," ∷ "\t\tst::boxPadding);"
    ∷ "\tbox->addButton(tr::lng_box_ok(), [=] {" ∷ "\t\tbox->closeBox();" ∷ "\t});" ∷ "}" ∷ "" ∷ ""
    ∷ [])

-- The text with what stands from `start` up to `end` replaced by `new`: each anchor must occur once,
-- and in this order.
unfoldable pub cut : String → String → Text → Text → Text → Text → Result Text
cut anchors order start end new text = do
  require (count start text == 1 && count end text == 1) (value_error anchors)
  first ← index start text
  last ← index end text
  refuse (leb last first) (value_error order)
  ok (take first text ++ (new ++ drop last text))

unfoldable pub transform : Text → Text → Result Text
unfolding replace header_edits source_edits text_eq cut
transform name text =
    if text_eq name domain_header
    then apply replace header_edits text
    else if text_eq name domain_source
    then apply replace source_edits text
    else if text_eq name preview_box
    then cut "Premium account entry anchors differ." "Premium entry source order differs."
        preview_start preview_end [] text
    else if text_eq name limits_box
    then cut "Account limit box anchors differ." "Account limit box source order differs."
        limits_start limits_end limits_new text
    else err (value_error "Unexpected Desktop account patch target.")
