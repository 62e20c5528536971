-- ===== src/Payout/ScbPayment.antt =====
-- payout/dtos/scb-payment.dto.ts: the records of a payment file of the bank, each as the entries of
-- its object, in the order in which the class declares them. What the constructor leaves out stays
-- undefined. The decorators only matter to a validation that the builder does not make.
use vz.Common.{ℕ, String, Option, none, some, List, [], ◌∷◌, ◌++◌, map}
use vz.Common.Int.{ℤ}
use vz.Common.Csv.{Text, codes, take, drop}

pub data Cell : Type 0 where
  undefined : Cell
  text : Text → Cell
  date : ℕ → Cell
  number : ℕ → Cell

-- An entry of an object: the name of a property, and its value.
abbrev pub Entry : Type 0
Entry = String × Cell

abbrev pub unset : String → Entry
unset name = (name, undefined)

abbrev pub optional : Option Text → Cell
optional none = undefined
optional (some t) = text t

-- `toFixed(2)` of an amount, `DD/MM/YYYY` of a date, and the digits of a number.
pub record Formats : Type 0 where
  pub to_fixed : ℤ → Text
  pub date_text : ℕ → Text
  pub digits : ℕ → Text

-- ScbPaymentHeaderDto
abbrev pub new_header : List Entry
new_header = ("recordType", text (codes "H")) ∷ ("fileType", text (codes "P")) ∷ []

-- The arguments of the constructor of ScbPaymentDetailDto.
pub record DetailArguments : Type 0 where
  pub customer_reference : Text
  pub payer_account_no : Text
  pub payer_city_code : Text
  pub payment_date : ℕ
  pub payee_name : Text
  pub payee_address : Text
  pub payee_bank_code : Option Text
  pub payee_account_no : Option Text
  pub payment_amount : ℤ
  pub payee_email : Option Text

module _ (f : Formats) where
  abbrev pub payment_columns : DetailArguments → List Entry
  payment_columns p =
      ("recordType", text (codes "P"))
        ∷ ("paymentType", text (codes "ACH"))
        ∷ ("processingMode", text (codes "BA"))
        ∷ unset "serviceType"
        ∷ ("customerReference", text p.customer_reference)
        ∷ unset "customerMemo"
        ∷ ("debitAcCountryCode", text (codes "MY"))
        ∷ ("debitAcCityCode", text p.payer_city_code)
        ∷ ("debitAcNo", text p.payer_account_no)
        ∷ ("paymentDate", date p.payment_date)
        ∷ ("payeeNameInBO", text p.payee_name)
        ∷ ("payeeAddress1InBO", text (take 35 p.payee_address))
        ∷ ("payeeAddress2InBO", text (take 35 (drop 35 p.payee_address)))
        ∷ ("payeeCountryCode", text (codes "MY"))
        ∷ unset "payeeFaxNumber"
        ∷ ("payeeBankCode", optional p.payee_bank_code)
        ∷ map unset ("payeeBankLocalClearingCode" ∷ "payeeBranchCode" ∷ "payeeBranchSubCode" ∷ [])
      ++ (("beneficiaryAcNo", optional p.payee_account_no)
            ∷ map unset (
                "paymentDetails1InBO" ∷ "paymentDetails2InBO" ∷ "vatAmount" ∷ "wHTPrintingLocation"
                ∷ "wHTFormId" ∷ "wHTTaxId" ∷ "wHTReferenceNumber" ∷ "wHTType1" ∷ "wHTDescription1"
                ∷ "wHTGrossAmount1" ∷ "wHTAmount1" ∷ "wHTType2" ∷ "wHTDescription2"
                ∷ "wHTGrossAmount2" ∷ "wHTAmount2" ∷ "discountAmount" ∷ [])
          ++ (("invoiceFormat", text (codes "4"))
              ∷ ("paymentCurrency", text (codes "MYR"))
              ∷ ("invoiceOrGrossAmount", text (f.to_fixed p.payment_amount))
              ∷ []))

  abbrev pub delivery_columns : DetailArguments → List Entry
  delivery_columns p =
      map unset (
        "localChargesTo" ∷ "overseasChargesTo" ∷ "intermediaryBankCode" ∷ "clearingCodeForTT"
        ∷ "clearingZoneCodeForLBC" ∷ "draweeBankCodeForIBC" ∷ "deliveryMethod" ∷ "deliverTo"
        ∷ "counterPickupLocation" ∷ "fXType" ∷ "payeeNameLine1LocalLanguage"
        ∷ "payeeNameLine2LocalLanguage" ∷ "payeeAddress1LocalLanguage"
        ∷ "payeeAddress2LocalLanguage" ∷ "payeeAddress3LocalLanguage" ∷ "payeeAddress4LocalLanguage"
        ∷ "paymentDetail1LocalLanguage" ∷ "paymentDetail2LocalLanguage" ∷ "vatType" ∷ "discountType"
        ∷ "debitCurrency" ∷ "debitBankId" ∷ "payeeId" ∷ [])
      ++ (("emailId", optional p.payee_email) ∷ [])

  abbrev pub instruction_columns : List Entry
  instruction_columns = map unset (
      "payeeOrBeneficiaryType" ∷ "beneficiaryBankType" ∷ "beneficiaryBankName"
      ∷ "beneficiaryBankAddr" ∷ "intermediaryBankType" ∷ "intermediaryBankName"
      ∷ "intermediaryBankAddr" ∷ "receiverCorrespondingBankCode" ∷ "orderingCustomer"
      ∷ "relatedInformation" ∷ "specialInstructionCode1" ∷ "specialInstructionDetail1"
      ∷ "specialInstructionCode2" ∷ "specialInstructionDetail2" ∷ "specialInstructionCode3"
      ∷ "specialInstructionDetail3" ∷ "specialInstructionCode4" ∷ "specialInstructionDetail4"
      ∷ "specialInstructionCode5" ∷ "specialInstructionDetail5" ∷ "specialInstructionCode6"
      ∷ "specialInstructionDetail6" ∷ "remittanceInformationCode1" ∷ "remittanceInformationDetail1"
      ∷ "remittanceInformationCode2" ∷ "remittanceInformationDetail2" ∷ "remittanceInformationCode3"
      ∷ "remittanceInformationDetail3" ∷ "remittanceInformationCode4"
      ∷ "remittanceInformationDetail4" ∷ "instructionCode1" ∷ "instructionCodeDesc1"
      ∷ "instructionCode2" ∷ "instructionCodeDesc2" ∷ "instructionCode3" ∷ "instructionCodeDesc3"
      ∷ "instructionCode4" ∷ "instructionCodeDesc4" ∷ "instructionCode5" ∷ "instructionCodeDesc5"
      ∷ "instructionCode6" ∷ "instructionCodeDesc6" ∷ [])

  abbrev pub report_columns : List Entry
  report_columns = map unset (
      "regulatoryReportingCode1" ∷ "regulatoryReportingDesc1" ∷ "regulatoryReportingCode2"
      ∷ "regulatoryReportingDesc2" ∷ "regulatoryReportingCode3" ∷ "regulatoryReportingDesc3"
      ∷ "senderCharges" ∷ "receiverCharges" ∷ "chequeNo" ∷ "chequeIssuedDate" ∷ "corporateChequeNo"
      ∷ "externalMemo" ∷ "mailingAddress1" ∷ "mailingAddress2" ∷ "mailingAddress3"
      ∷ "mailingAddress4" ∷ "transactionCode" ∷ [])

  abbrev pub custom_invoice_columns : List Entry
  custom_invoice_columns = map unset (
      "customInvoiceHeader1" ∷ "customInvoiceColumnAlignment1" ∷ "customInvoiceColumnLength1"
      ∷ "customInvoiceHeader2" ∷ "customInvoiceColumnAlignment2" ∷ "customInvoiceColumnLength2"
      ∷ "customInvoiceHeader3" ∷ "customInvoiceColumnAlignment3" ∷ "customInvoiceColumnLength3"
      ∷ "customInvoiceHeader4" ∷ "customInvoiceColumnAlignment4" ∷ "customInvoiceColumnLength4"
      ∷ "customInvoiceHeader5" ∷ "customInvoiceColumnAlignment5" ∷ "customInvoiceColumnLength5"
      ∷ "customInvoiceHeader6" ∷ "customInvoiceColumnAlignment6" ∷ "customInvoiceColumnLength6"
      ∷ "customInvoiceHeader7" ∷ "customInvoiceColumnAlignment7" ∷ "customInvoiceColumnLength7"
      ∷ "customInvoiceHeader8" ∷ "customInvoiceColumnAlignment8" ∷ "customInvoiceColumnLength8"
      ∷ "customInvoiceHeader9" ∷ "customInvoiceColumnAlignment9" ∷ "customInvoiceColumnLength9"
      ∷ [])

  abbrev pub payer_columns : DetailArguments → List Entry
  payer_columns p =
      map unset (
        "fxRateIndicator" ∷ "destinationCenterCountryCode" ∷ "destinationCenterCityCode"
        ∷ "datePriority" ∷ "amountPriority" ∷ "onBehalfOfName" ∷ "onBehalfOfAccount"
        ∷ "onBehalfOfAddress1" ∷ "onBehalfOfAddress2" ∷ "onBehalfOfAddress3"
        ∷ "onBehalfOfNameLocalLanguage" ∷ "onBehalfOfAddress1LocalLanguage"
        ∷ "onBehalfOfAddress2LocalLanguage" ∷ "onBehalfOfAddress3LocalLanguage" ∷ "fxRateType"
        ∷ "deliveryOption" ∷ [])
      ++ (("purposeOfPaymentTransactionId", text (codes "21220"))
          ∷ map unset (
              "receiverIdBillerCodeOrBeneficiaryIdRTGS" ∷ "receiverIdType"
              ∷ "newICOrOldICOrCompRegOrPassportPoliceNoAkaCustomerNo"
              ∷ "validationTypeAkaListedCompanyCode" ∷ "byOrderOfSelf" ∷ []))

  abbrev pub filler_columns : List Entry
  filler_columns = map unset (
      "paySubProductType" ∷ "beneficiaryAccountType" ∷ "oBOId" ∷ "cASPaymentIndicator"
      ∷ "onBehalfOfType" ∷ "onBehalfOfPartyIdentifierCode" ∷ "onBehalfOfPartyIdentifierCountryCode"
      ∷ "onBehalfOfPartyIdentifierIssuer" ∷ "onBehalfOfPartyIdentifierIssuingAuthority"
      ∷ "onBehalfOfPartyIdentifierRegistrationAuthority" ∷ "partyIdentifierValueOrAccountNumber"
      ∷ "onBehalfOfAddress1Code" ∷ "onBehalfOfAddress1CountryCode" ∷ "onBehalfOfAddress2Code"
      ∷ "onBehalfOfAddress2CountryCode" ∷ "onBehalfOfAddress3Code" ∷ "onBehalfOfAddress3CountryCode"
      ∷ "onBehalfOfAddressLineIssuer" ∷ "onBehalfOfAddressLineIssuerLL" ∷ "filler1"
      ∷ "destinationPurposeCode" ∷ "filler2" ∷ "filler3" ∷ "filler4" ∷ "filler5" ∷ "filler6"
      ∷ "filler7" ∷ "filler8" ∷ "filler9" ∷ "filler10" ∷ "recipientReferenceNumber1"
      ∷ "recipientReferenceNumber2" ∷ "filler11" ∷ "jointBeneficiaryNameSecondAccountHolderName"
      ∷ "jointBeneficiaryId" ∷ "jointBeneficiaryIdType" ∷ [])

  -- ScbPaymentDetailDto
  unfoldable pub new_detail : DetailArguments → List Entry
  new_detail p =
      payment_columns p
      ++ (delivery_columns p
          ++ (instruction_columns
              ++ (report_columns
                  ++ (custom_invoice_columns ++ (payer_columns p ++ filler_columns)))))

  -- ScbPaymentInvoiceDto
  abbrev pub new_invoice : Text → ℕ → Text → ℤ → List Entry
  new_invoice reference day description amount =
      ("recordType", text (codes "I"))
      ∷ ("invoiceReference", text reference)
      ∷ ("invoiceDate", date day)
      ∷ ("invoiceDescription", text description)
      ∷ ("invoiceAmount", text (f.to_fixed amount))
      ∷ []

  -- ScbPaymentTrailerDto
  abbrev pub new_trailer : ℕ → ℤ → List Entry
  new_trailer count amount =
      ("recordType", text (codes "T"))
      ∷ ("totalNumberOfRecords", number count)
      ∷ ("totalInvoiceAmount", text (f.to_fixed amount))
      ∷ []
