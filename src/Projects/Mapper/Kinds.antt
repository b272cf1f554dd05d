-- ===== src/Projects/Mapper/Kinds.antt =====
-- The fields of the tables that are joined to projects, and the kinds of fields: PROJECT_JOIN_TABLES of
-- src/plugins/projects/helpers/project-config.js and the sets of project-mapper.js beside it.
use pafs_backend_api.Prelude.{String, List, [], ◌∷◌}
use pafs_backend_api.Projects.Mapper.Fields.{FieldMap}

abbrev pub states_fields : FieldMap
states_fields = ("projectState", "state") ∷ []

abbrev pub area_projects_fields : FieldMap
area_projects_fields = ("areaId", "area_id") ∷ ("isOwner", "owner") ∷ []

abbrev pub nfm_measures_fields : FieldMap
nfm_measures_fields =
    ("measureType", "measure_type")
    ∷ ("areaHectares", "area_hectares")
    ∷ ("storageVolumeM3", "storage_volume_m3")
    ∷ ("lengthKm", "length_km")
    ∷ ("widthM", "width_m")
    ∷ []

abbrev pub nfm_land_use_changes_fields : FieldMap
nfm_land_use_changes_fields =
    ("landUseType", "land_use_type")
    ∷ ("areaBeforeHectares", "area_before_hectares")
    ∷ ("areaAfterHectares", "area_after_hectares")
    ∷ []

abbrev pub funding_values_fields : FieldMap
funding_values_fields =
    ("id", "id")
    ∷ ("financialYear", "financial_year")
    ∷ ("fcermGia", "fcerm_gia")
    ∷ ("localLevy", "local_levy")
    ∷ ("internalDrainageBoards", "internal_drainage_boards")
    ∷ ("publicContributions", "public_contributions")
    ∷ ("privateContributions", "private_contributions")
    ∷ ("otherEaContributions", "other_ea_contributions")
    ∷ ("notYetIdentified", "not_yet_identified")
    ∷ ("total", "total")
    ∷ ("assetReplacementAllowance", "asset_replacement_allowance")
    ∷ ("environmentStatutoryFunding", "environment_statutory_funding")
    ∷ ("frequentlyFloodedCommunities", "frequently_flooded_communities")
    ∷ ("otherAdditionalGrantInAid", "other_additional_grant_in_aid")
    ∷ ("otherGovernmentDepartment", "other_government_department")
    ∷ ("recovery", "recovery")
    ∷ ("summerEconomicFund", "summer_economic_fund")
    ∷ []

abbrev pub funding_contributors_fields : FieldMap
funding_contributors_fields =
    ("name", "name")
    ∷ ("contributorType", "contributor_type")
    ∷ ("fundingValueId", "funding_value_id")
    ∷ ("amount", "amount")
    ∷ ("secured", "secured")
    ∷ ("constrained", "constrained")
    ∷ ("createdAt", "created_at")
    ∷ ("updatedAt", "updated_at")
    ∷ []

abbrev pub array_fields : List String
array_fields = "projectInterventionTypes" ∷ "risks" ∷ []

abbrev pub number_fields : List String
number_fields = "financialStartYear" ∷ "financialEndYear" ∷ "id" ∷ []

abbrev pub percentage_fields : List String
percentage_fields = "percentProperties20PercentDeprived" ∷ "percentProperties40PercentDeprived" ∷ []

abbrev pub bigint_fields : List String
bigint_fields =
    "wlcEstimatedWholeLifePvCosts" ∷ "wlcEstimatedDesignConstructionCosts"
    ∷ "wlcEstimatedRiskContingencyCosts" ∷ "wlcEstimatedFutureCosts"
    ∷ "wlbEstimatedWholeLifePvBenefits" ∷ "wlbEstimatedPropertyDamagesAvoided"
    ∷ "wlbEstimatedEnvironmentalBenefits" ∷ "wlbEstimatedRecreationTourismBenefits"
    ∷ "wlbEstimatedLandValueUpliftBenefits" ∷ "carbonOperationalCostForecast"
    ∷ "maintainingExistingAssets" ∷ "reducingFloodRisk50Plus" ∷ "reducingFloodRiskLess50"
    ∷ "increasingFloodResilience" ∷ "propertiesBenefitMaintainingAssetsCoastal"
    ∷ "propertiesBenefitInvestmentCoastalErosion" ∷ []

abbrev pub decimal_fields : List String
decimal_fields =
    "carbonCostBuild" ∷ "carbonCostOperation" ∷ "carbonCostSequestered" ∷ "carbonCostAvoided"
    ∷ "carbonSavingsNetEconomicBenefit" ∷ []

abbrev pub funding_value_bigint_fields : List String
funding_value_bigint_fields =
    "fcermGia" ∷ "localLevy" ∷ "internalDrainageBoards" ∷ "publicContributions"
    ∷ "privateContributions" ∷ "otherEaContributions" ∷ "notYetIdentified" ∷ "total"
    ∷ "assetReplacementAllowance" ∷ "environmentStatutoryFunding" ∷ "frequentlyFloodedCommunities"
    ∷ "otherAdditionalGrantInAid" ∷ "otherGovernmentDepartment" ∷ "recovery" ∷ "summerEconomicFund"
    ∷ []

abbrev pub funding_contributor_bigint_fields : List String
funding_contributor_bigint_fields = "fundingValueId" ∷ "amount" ∷ []

abbrev pub funding_values_number_fields : List String
funding_values_number_fields = "financialYear" ∷ "id" ∷ []
