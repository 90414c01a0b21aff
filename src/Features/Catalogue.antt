-- ===== src/Features/Catalogue.antt =====
-- The features and what unlocks each (src/services/features.js). Plans, add-ons and features are numbered
-- in the order in which they are first named.
use meet_millions_finance.Prelude.{nat_eq, ℕ, Option, none, some, List, [], ◌∷◌}

pub record Feature : Type 0 where
  pub key : ℕ
  pub plans : List ℕ
  pub add_on : Option ℕ

abbrev pub basic : ℕ
basic = 0

abbrev pub standard : ℕ
standard = 1

abbrev pub pro : ℕ
pro = 2

abbrev pub enterprise : ℕ
enterprise = 3

-- `FEATURES`: the number of each entry is its place.
abbrev pub features_table : List Feature
features_table =
    -- document_upload
    record { key = 0; plans = basic ∷ standard ∷ pro ∷ enterprise ∷ []; add_on = none }
    -- unlimited_uploads
    ∷ record { key = 1; plans = standard ∷ pro ∷ enterprise ∷ []; add_on = none }
    -- gst_reports
    ∷ record { key = 2; plans = standard ∷ pro ∷ enterprise ∷ []; add_on = none }
    -- payment_tracking
    ∷ record { key = 3; plans = standard ∷ pro ∷ enterprise ∷ []; add_on = none }
    -- manager_approval
    ∷ record { key = 4; plans = standard ∷ pro ∷ enterprise ∷ []; add_on = none }
    -- ocr_ai (ai_ocr_engine)
    ∷ record { key = 5; plans = pro ∷ enterprise ∷ []; add_on = some 0 }
    -- whatsapp_integration (whatsapp_business_api)
    ∷ record { key = 6; plans = pro ∷ enterprise ∷ []; add_on = some 1 }
    -- api_access (api_marketplace)
    ∷ record { key = 7; plans = pro ∷ enterprise ∷ []; add_on = some 2 }
    -- advanced_reports (advanced_analytics)
    ∷ record { key = 8; plans = pro ∷ enterprise ∷ []; add_on = some 3 }
    -- audit_logs (audit_logs_advanced)
    ∷ record { key = 9; plans = pro ∷ enterprise ∷ []; add_on = some 4 }
    -- white_label (white_label_branding)
    ∷ record { key = 10; plans = pro ∷ enterprise ∷ []; add_on = some 5 }
    -- priority_support
    ∷ record { key = 11; plans = pro ∷ enterprise ∷ []; add_on = none }
    -- chat_support
    ∷ record { key = 12; plans = standard ∷ pro ∷ enterprise ∷ []; add_on = none }
    -- email_automation (an add-on)
    ∷ record { key = 13; plans = []; add_on = some 6 }
    -- sms_automation (an add-on)
    ∷ record { key = 14; plans = []; add_on = some 7 }
    -- voice_notes (voice_notes_to_crm)
    ∷ record { key = 15; plans = []; add_on = some 8 }
    -- meta_lead_ads (an add-on)
    ∷ record { key = 16; plans = []; add_on = some 9 }
    -- google_sheets (an add-on)
    ∷ record { key = 17; plans = []; add_on = some 10 }
    -- google_forms (an add-on)
    ∷ record { key = 18; plans = []; add_on = some 11 }
    -- website_forms (website_contact_form)
    ∷ record { key = 19; plans = []; add_on = some 12 }
    -- ai_doc_verification (ai_document_verification)
    ∷ record { key = 20; plans = []; add_on = some 13 }
    -- ai_tax_assistant (ai_gst_tax_assistant)
    ∷ record { key = 21; plans = []; add_on = some 14 }
    -- ai_business_insights (an add-on)
    ∷ record { key = 22; plans = []; add_on = some 15 }
    -- payment_gateway (an add-on)
    ∷ record { key = 23; plans = []; add_on = some 16 }
    -- esign (an add-on)
    ∷ record { key = 24; plans = []; add_on = some 17 }
    -- google_drive (an add-on)
    ∷ record { key = 25; plans = []; add_on = some 18 }
    -- dropbox (an add-on)
    ∷ record { key = 26; plans = []; add_on = some 19 }
    -- onedrive (an add-on)
    ∷ record { key = 27; plans = []; add_on = some 20 }
    -- mobile_app (an add-on)
    ∷ record { key = 28; plans = []; add_on = some 21 }
    -- client_portal (client_self_service_portal)
    ∷ record { key = 29; plans = standard ∷ pro ∷ enterprise ∷ []; add_on = some 22 }
    -- gps_attendance (employee_gps_attendance)
    ∷ record { key = 30; plans = []; add_on = some 23 }
    -- calendar_sync (calendar_integration)
    ∷ record { key = 31; plans = []; add_on = some 24 }
    -- multi_branch (multi_branch_management)
    ∷ record { key = 32; plans = []; add_on = some 25 }
    -- franchise (franchise_management)
    ∷ record { key = 33; plans = []; add_on = some 26 }
    -- multi_company (multi_company_management)
    ∷ record { key = 34; plans = pro ∷ enterprise ∷ []; add_on = some 27 }
    -- enterprise_security (an add-on)
    ∷ record { key = 35; plans = []; add_on = some 28 }
    -- cloud_telephony (an add-on)
    ∷ record { key = 36; plans = []; add_on = some 29 }
    -- call_recording (cloud_telephony)
    ∷ record { key = 37; plans = []; add_on = some 29 }
    -- call_ai (cloud_telephony)
    ∷ record { key = 38; plans = []; add_on = some 29 }
    ∷ []
